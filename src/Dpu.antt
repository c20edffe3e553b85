-- ===== src/Dpu.antt =====
-- microovn/ovn/dpu/dpu.go: the serial number of a DPU that the daemon runs on.
use microovn.Prelude.{ℕ, String, code, Bool, ◌||◌, ◌&&◌, List, [], ◌∷◌, ◌==◌, eqb, if◌then◌else◌}
use microovn.Text.{◌<>◌, join, split, includes, has_prefix, trim_space}
use microovn.Netplan.{Entries, run_command}
use microovn.Commands.{vs_ctl}
use microovn.Effect.{
  Env, Result, ok, panic, M, ret, raise, lift, attempt, either, on_error, errorf, wrapf, ◌>>=◌,
  ◌>>◌,
}

-- `DevlinkPort`
pub record DevlinkPort : Type 0 where
  pub flavour : String
  pub controller : ℕ

-- `strings.Split(key, "/")[1]`
abbrev second : List String → Result String
second (a ∷ b ∷ rest) = ok b
second _ = panic

abbrev pub is_dpu_port : DevlinkPort → Bool
is_dpu_port port = eqb port.controller 1 && port.flavour == "pcipf" || port.flavour == "pcivf"

-- `findDPUDevlink`, for the ports in the order in which the loop meets them.
unfoldable pub find_dpu_devlink : Entries DevlinkPort → Result String
find_dpu_devlink [] = ok ""
find_dpu_devlink ((key, port) ∷ ports) =
    let rest = find_dpu_devlink ports in if is_dpu_port port then second (split b'/' key) else rest

-- What follows the first colon: `strings.SplitN(line, ":", 2)[1]` of a line that has one.
unfoldable pub after_colon : String → String
after_colon String.[] = ""
after_colon (String.◌∷◌ c s) = let rest = after_colon s in if eqb (code c) b':' then s else rest

-- `parseLspciSerial`
unfoldable pub serial_of : List String → String
serial_of [] = ""
serial_of (line ∷ lines) =
    let rest = serial_of lines in
    if has_prefix (trim_space line) "[SN] Serial number:"
    then trim_space (after_colon (trim_space line))
    else rest

abbrev pub parse_lspci_serial : String → String
parse_lspci_serial output = serial_of (split 10 output)

-- `externalIDs` of `setOVNDPUSerial`
unfoldable pub serial_ids : String → String → String
unfolding join
serial_ids out serial =
    let ids = "ovn-cms-options=card-serial-number=" <> serial in
    if out == "" then ids else join "," (out ∷ ids ∷ [])

-- `decode` is `json.Unmarshal` into a DevlinkJSON.
module _ (env : Env) (decode : String → Result (Entries DevlinkPort)) where
  -- `detectDPU`
  unfoldable pub detect_dpu : M String
  detect_dpu = do
    out ←
        on_error (wrapf "failed to run devlink: ")
          (run_command env "devlink" ("port" ∷ "show" ∷ "-jp" ∷ []))
    ports ← on_error (wrapf "failed to parse devlink JSON: ") (lift (decode out))
    lift (find_dpu_devlink ports)

  -- `getDPUSerial`
  unfoldable pub get_dpu_serial : String → M String
  get_dpu_serial pci = do
    out ←
        on_error (wrapf ("failed to run lspci -vvv -s " <> pci <> ": "))
          (run_command env "lspci" ("-vvv" ∷ "-s" ∷ pci ∷ []))
    if parse_lspci_serial out == ""
        then raise (errorf ("serial number not found for DPU at PCI " <> pci))
        else ret (parse_lspci_serial out)

  -- `setOVNDPUSerial`; ovs-vsctl prints nothing when it finds no key.
  unfoldable pub set_ovn_dpu_serial : String → M (Unit {0})
  unfolding serial_ids
  set_ovn_dpu_serial serial = do
    r ← attempt (vs_ctl env ("get" ∷ "Open_vSwitch" ∷ "." ∷ "external-ids:ovn-cms-options" ∷ []))
    out ← either r ret λ e. if includes e.message "ovs-vsctl: no key" then ret "" else raise e
    on_error (wrapf "ovs-vsctl failed: ") (
        vs_ctl env ("set" ∷ "Open_vSwitch" ∷ "." ∷ ("external-ids:" <> serial_ids out serial) ∷ []))
    ret tt

  -- `DPUSetup`
  unfoldable pub dpu_setup : M (Unit {0})
  dpu_setup = do
    r ← attempt detect_dpu
    either r
        (λ pci.
          if pci == "" then ret tt else do serial ← get_dpu_serial pci; set_ovn_dpu_serial serial)
        (λ e.
          if includes e.message "executable file not found"
            || includes e.message "Failed to connect to devlink Netlink"
          then ret tt
          else raise e)
