-- ===== src/Bgp/Names.antt =====
-- microovn/bgp/redirect.go: the names of what the BGP redirect creates, and the small helpers.
use microovn.Prelude.{ℕ, String, code, List, [], ◌∷◌, ◌==◌, eqb, ◌&&◌, if◌then◌else◌}
use microovn.Text.{◌<>◌, cons, split, includes, trim_space, format}
use microovn.Text.Trim.{trim_of, trim_right_of, cut_suffix, format_hex, first}
use microovn.Commands.{vs_ctl}
use microovn.Effect.{Env, M, ret, raise, attempt, either, call, file, errorf, ◌>>=◌}
use microovn.Effect.Errors.{is_not_exist}

abbrev pub bgp_managed_tag : String
bgp_managed_tag = "microovn-bgp-managed"

abbrev pub bgp_vrf_table : String
bgp_vrf_table = "microovn-bgp-vrf"

abbrev pub bgp_bridge_mapping : String
bgp_bridge_mapping = "microovn-bgp-bridge-mapping"

-- `external-ids:microovn-bgp-managed=true`
abbrev pub managed : String
managed = "external-ids:" <> bgp_managed_tag <> "=true"

module _ (env : Env) where
  abbrev pub get_physnet_name : String → String
  get_physnet_name interface_name = "physnet_" <> env.name <> "_" <> interface_name

  abbrev pub get_lr_name : String
  get_lr_name = "lr-" <> env.name <> "-microovn"

  abbrev pub get_ls_name : String → String
  get_ls_name iface = "ls-" <> env.name <> "-" <> iface

  unfoldable pub get_ls_name_chassis_match : String
  unfolding cut_suffix
  get_ls_name_chassis_match = cut_suffix (get_ls_name "FOO") "FOO"

  abbrev pub get_lrp_name : String → String
  get_lrp_name iface = "lrp-" <> env.name <> "-" <> iface

  abbrev pub get_lsp_name : String → String
  get_lsp_name iface = "lsp-" <> env.name <> "-" <> iface

  abbrev pub get_patch_name : String → String
  get_patch_name iface = "patch-" <> env.name <> "-" <> iface

-- The texts of the bytes, each with `sep` behind it.
unfoldable pub each_byte : (ℕ → String) → String → List ℕ → String
each_byte print sep [] = ""
each_byte print sep (b ∷ bs) = print b <> sep <> each_byte print sep bs

-- `md5` is `md5.Sum` of crypto/md5.
module _ (md5 : String → List ℕ) where
  unfoldable pub generate_lrp_mac : String → String
  unfolding each_byte format_hex trim_right_of first
  generate_lrp_mac iface_name =
      trim_right_of b':' ("02:" <> each_byte format_hex ":" (first 5 (md5 iface_name)))

  unfoldable pub generate_bgp_router_id : String → String
  unfolding each_byte format trim_right_of first
  generate_bgp_router_id s = trim_right_of b'.' (each_byte format "." (first 4 (md5 s)))

-- The argument that names a column, or a key of it.
abbrev column_args : String → String → List String
column_args column key =
    if column == "" then [] else if key == "" then column ∷ [] else (column <> ":" <> key) ∷ []

-- `VsctlGetIfExists`; ovs-vsctl prints nothing when it finds no key.
unfoldable pub vsctl_get_if_exists : Env → String → String → String → String → M String
unfolding trim_of trim_space
vsctl_get_if_exists env table row column key = do
  r ← attempt (vs_ctl env ("get" ∷ table ∷ row ∷ column_args column key))
  either r (λ out. ret (trim_of b'"' (trim_space out)))
      λ e. if includes e.message "ovs-vsctl: no key" then ret "" else raise e

-- `VsctlGetIfExists` for a key of the external ids of the only row of Open_vSwitch.
abbrev pub get_external_id : Env → String → M String
get_external_id env key = vsctl_get_if_exists env "Open_vSwitch" "." "external-ids" key

-- `getOvnIntegrationBridge`
unfoldable pub get_ovn_integration_bridge : Env → M String
get_ovn_integration_bridge env = do
  br_name ← get_external_id env "ovn-bridge"
  if br_name == "" then ret "br-int" else ret br_name

abbrev pub get_vrf_name : String → String
get_vrf_name table_id = "ovnvrf" <> table_id

abbrev pub get_bgp_veth_name : String → String
get_bgp_veth_name iface = "v" <> iface

abbrev pub get_bgp_redirect_iface_name : String → String
get_bgp_redirect_iface_name iface = get_bgp_veth_name iface <> "-bgp"

abbrev pub get_bgp_redirect_iface_peer_name : String → String
get_bgp_redirect_iface_peer_name iface = get_bgp_veth_name iface <> "-brg"

-- A line without the carriage return at its end, as bufio.ScanLines reads it.
unfoldable pub drop_return : String → String
drop_return String.[] = ""
drop_return (String.◌∷◌ c s) =
    let rest = drop_return s in if s == "" && eqb (code c) 13 then "" else cons c rest

-- The lines that are not empty, in their order.
unfoldable pub full_lines : List String → List String
unfolding drop_return
full_lines [] = []
full_lines (line ∷ lines) =
    let rest = full_lines lines in
    let text = drop_return line in if text == "" then rest else text ∷ rest

-- `parseOvnFind`, for lines below the 64 KiB that a bufio.Scanner takes.
unfoldable pub parse_ovn_find : String → List String
unfolding full_lines split
parse_ovn_find stdout = full_lines (split 10 stdout)

-- `checkKernelModule`
unfoldable pub check_kernel_module : Env → String → M (Unit {0})
check_kernel_module env module_name = do
  r ← attempt (call env (file "stat" (("/sys/module/" <> module_name) ∷ [])))
  either r (λ out. ret tt)
      λ e.
        if is_not_exist e
        then raise (errorf (module_name <> " kernel module missing or not loaded"))
        else ret tt
