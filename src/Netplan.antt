-- ===== src/Netplan.antt =====
-- microovn/netplan/netplan.go: the netplan file with the interfaces of the BGP redirect.
pub mod Cleanup
use microovn.Prelude.{ℕ, String, Bool, false, List, [], ◌∷◌, ◌==◌, any, if◌then◌else◌}
use microovn.Text.{◌<>◌, includes}
use microovn.Effect.{
  Env, Result, M, ret, raise, attempt, either, lift, call, command, file, on_error, errorf, wrapf,
  ◌>>=◌, ◌>>◌,
}
use microovn.Effect.Errors.{is_not_exist}

-- A Go map as the list of its entries, in the order in which a loop over it meets them.
abbrev pub Entries : Type 0 → Type 0
Entries A = List (String × A)

module _ {A : Type 0} where
  -- `m[key] = a`
  unfoldable pub put_entry : String → A → Entries A → Entries A
  put_entry key a [] = (key, a) ∷ []
  put_entry key a ((k, b) ∷ m) =
      let rest = put_entry key a m in if k == key then (key, a) ∷ m else (k, b) ∷ rest

-- `dummy`
pub record Dummy : Type 0 where
  pub mac_address : String
  pub accept_ra : Bool
  pub link_local : List String

-- `virtualEthernet`
pub record VirtualEthernet : Type 0 where
  pub peer : String
  pub mac_address : String
  pub accept_ra : Bool
  pub link_local : List String

-- `vrf`
pub record Vrf : Type 0 where
  pub table : String
  pub interfaces : List String

-- `openvSwitch`
pub record OpenvSwitch : Type 0 where
  pub fail_mode : String
  pub external_ids : Entries String

-- `bridge`, whose switch is never nil here.
pub record Bridge : Type 0 where
  pub openv_switch : OpenvSwitch
  pub interfaces : List String

-- `network`, the only field of `Config`.
pub record Network : Type 0 where
  pub version : ℕ
  pub virtual_ethernets : Entries VirtualEthernet
  pub vrfs : Entries Vrf
  pub dummies : Entries Dummy
  pub bridges : Entries Bridge
  pub openv_switch : OpenvSwitch

-- `NewConfig`
abbrev pub new_config : Network
new_config = record {
  version = 2;
  virtual_ethernets = [];
  vrfs = [];
  dummies = [];
  bridges = [];
  openv_switch = record { fail_mode = ""; external_ids = [] };
}

-- `AddDummy`
abbrev pub add_dummy : Network → String → String → Bool → List String → Network
add_dummy c iface mac accept link = record c {
  dummies =
      put_entry iface (record { mac_address = mac; accept_ra = accept; link_local = link })
        c.dummies;
}

-- `AddVeth`
abbrev pub add_veth : Network → String → String → String → Bool → List String → Network
add_veth c iface peer mac accept link = record c {
  virtual_ethernets =
      put_entry iface
        (record { peer = peer; mac_address = mac; accept_ra = accept; link_local = link })
        c.virtual_ethernets;
}

-- `AddVRF`
abbrev pub add_vrf : Network → String → String → List String → Network
add_vrf c name table ifaces = record c {
  vrfs = put_entry name (record { table = table; interfaces = ifaces }) c.vrfs;
}

-- `AddBridge`
abbrev pub add_bridge : Network → String → List String → Network
add_bridge c name ifaces = record c {
  bridges =
      put_entry name
        (record {
          openv_switch = record { fail_mode = "secure"; external_ids = [] };
          interfaces = ifaces;
        })
        c.bridges;
}

-- What the program uses of gopkg.in/yaml.v3.
pub record Yaml : Type 0 where
  pub marshal : Network → Result String
  pub decode : String → Result Network

module _ (env : Env) where
  -- `shared.RunCommandContext(ctx, cmd, args...)`
  abbrev pub run_command : String → List String → M String
  run_command cmd args = call env (command cmd args)

  abbrev pub delete_device : String → M String
  delete_device iface = run_command "ip" ("link" ∷ "delete" ∷ "dev" ∷ iface ∷ [])

  -- The loop of `CleanupVirtualEthernets`; `deleted` are the keys of the map deletedPeers. The end of a
  -- pair goes with the other end.
  unfoldable pub cleanup_veths : List String → Entries VirtualEthernet → M (Unit {0})
  cleanup_veths deleted [] = ret tt
  cleanup_veths deleted ((iface, veth) ∷ rest) =
      if any (λ d. d == iface) deleted then cleanup_veths deleted rest else do
        r ← attempt (delete_device iface)
        either r (λ out. cleanup_veths (veth.peer ∷ deleted) rest)
            λ e.
              if includes e.message "Cannot find device"
              then cleanup_veths deleted rest
              else raise (errorf ("failed remove interface '" <> iface <> "': " <> e.message))

  -- `CleanupVirtualEthernets`
  abbrev pub cleanup_virtual_ethernets : Network → M (Unit {0})
  cleanup_virtual_ethernets c = cleanup_veths [] c.virtual_ethernets

  -- The loop of `CleanupVRFs`; the argument `link ` is the one of the code.
  unfoldable pub cleanup_tables : Bool → Entries Vrf → M (Unit {0})
  cleanup_tables delete [] = ret tt
  cleanup_tables delete ((name, vrf) ∷ rest) = do
    on_error (λ e. errorf ("failed to flush vrf '" <> name <> "': " <> e.message))
        (run_command "ip" ("route" ∷ "flush" ∷ "table" ∷ vrf.table ∷ []))
    if delete
        then (do
          on_error (λ e. errorf ("failed to delete vrf '" <> name <> "': " <> e.message))
              (run_command "ip" ("link " ∷ "delete" ∷ "dev" ∷ name ∷ []))
          ret tt)
        else ret tt
    cleanup_tables delete rest

  -- `CleanupVRFs`
  abbrev pub cleanup_vrfs : Network → Bool → M (Unit {0})
  cleanup_vrfs c delete = cleanup_tables delete c.vrfs

  -- `Apply`
  unfoldable pub apply : M (Unit {0})
  apply = do
    on_error
        (λ e.
          if includes e.message "The 'ovs-vsctl' tool is required to setup OpenVSwitch interfaces."
          then errorf
              "failed to apply netplan config: installed netplan does not support using ovs-vsctl from microovn"
          else e)
        (run_command "dbus-send" (
          "--system" ∷ "--type=method_call" ∷ "--print-reply" ∷ "--dest=io.netplan.Netplan"
          ∷ "/io/netplan/Netplan" ∷ "io.netplan.Netplan.Apply" ∷ []))
    ret tt

module _ (env : Env) (yaml : Yaml) where
  -- `WriteToNetplan`
  unfoldable pub write_to_netplan : String → Network → M (Unit {0})
  write_to_netplan filename config = do
    text ← lift (yaml.marshal config)
    let filepath = "/tmp/" <> filename
    on_error (λ e. errorf ("failed to write file: " <> e.message))
        (call env (file "write" (filepath ∷ text ∷ [])))
    run_command env "mv" (filepath ∷ "/etc/netplan" ∷ [])
    ret tt

  -- `LoadConfig`
  unfoldable pub load_config : String → M Network
  load_config filename = do
    text ←
        on_error (wrapf ("failed to open file \"" <> filename <> "\": "))
          (call env (file "read" (filename ∷ [])))
    on_error (wrapf "failed to decode YAML: ") (lift (yaml.decode text))

  -- What `Cleanup` does with a file that is there.
  unfoldable pub cleanup_file : String → String → M (Unit {0})
  cleanup_file filepath tmpfilepath = do
    on_error (λ e. errorf ("failed to move netplan config: " <> e.message))
        (run_command env "mv" (filepath ∷ tmpfilepath ∷ []))
    netplan_file ←
        on_error (λ e. errorf ("cannot read netplan config: " <> e.message))
          (load_config tmpfilepath)
    on_error (λ e. errorf ("virtual ethernets cleanup failed: " <> e.message))
        (cleanup_virtual_ethernets env netplan_file)
    on_error (λ e. errorf ("VRF cleanup failed: " <> e.message))
        (cleanup_vrfs env netplan_file false)
    on_error (λ e. errorf ("failed to delete netplan config: " <> e.message))
        (run_command env "rm" (tmpfilepath ∷ []))
    apply env

  -- `Cleanup`
  unfoldable pub cleanup : String → M (Unit {0})
  cleanup filename = do
    let filepath = "/etc/netplan/" <> filename
    r ← attempt (call env (file "stat" (filepath ∷ [])))
    either r (λ out. cleanup_file filepath ("/tmp/" <> filename))
        λ e. if is_not_exist e then ret tt else cleanup_file filepath ("/tmp/" <> filename)
