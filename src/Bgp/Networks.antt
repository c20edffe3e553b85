-- ===== src/Bgp/Networks.antt =====
-- microovn/bgp/redirect.go: the bridges, switches, routers and ports of the BGP redirect.
use microovn.Prelude.{String, false, List, [], ◌∷◌, ◌++◌, ◌==◌, if◌then◌else◌, ℕ}
use microovn.Text.{◌<>◌}
use microovn.Netplan.{
  Network, Yaml, new_config, add_veth, add_vrf, add_bridge, put_entry, write_to_netplan, apply,
  run_command,
}
use microovn.Commands.{vs_ctl, nb_ctl_cluster}
use microovn.Effect.{Env, M, ret, on_error, errorf, ◌>>=◌, ◌>>◌}
use microovn.Bgp.Names.{
  managed, bgp_bridge_mapping, bgp_vrf_table, get_physnet_name, get_lr_name, get_ls_name,
  get_lrp_name, get_lsp_name, get_patch_name, get_external_id, get_ovn_integration_bridge,
  get_vrf_name, get_bgp_redirect_iface_name, get_bgp_redirect_iface_peer_name, generate_lrp_mac,
  check_kernel_module,
}

-- One more entry of a bridge mapping.
unfoldable pub extend_mapping : String → String → String → String
extend_mapping bridge_map physnet bridge =
    if bridge_map == ""
    then physnet <> ":" <> bridge
    else bridge_map <> "," <> physnet <> ":" <> bridge

-- The two external ids that keep the bridge mapping.
abbrev pub mapping_args : String → List String
mapping_args bridge_map =
    ("external-ids:ovn-bridge-mappings=\"" <> bridge_map <> "\"")
    ∷ ("external-ids:" <> bgp_bridge_mapping <> "=\"" <> bridge_map <> "\"")
    ∷ []

module _ (env : Env) where
  abbrev lookup_mapping : M String
  lookup_mapping =
      on_error (λ e. errorf ("failed to lookup ovn-bridge-mappings: " <> e.message))
        (get_external_id env "ovn-bridge-mappings")

  -- `createExternalBridges`; the mapping is read again for each interface.
  unfoldable pub create_external_bridges : List String → M (List String)
  unfolding extend_mapping
  create_external_bridges [] = ret []
  create_external_bridges (iface ∷ ifaces) = do
    let bridge_name = "br-" <> iface
    bridge_map ← lookup_mapping
    vs_ctl env (
        "--"
          ∷ "add-br"
          ∷ bridge_name
          ∷ "--"
          ∷ "set"
          ∷ "bridge"
          ∷ bridge_name
          ∷ managed
          ∷ "--"
          ∷ "set"
          ∷ "Open_vSwitch"
          ∷ "."
          ∷ mapping_args (extend_mapping bridge_map (get_physnet_name env bridge_name) bridge_name)
        ++ "--" ∷ "add-port" ∷ bridge_name ∷ iface ∷ [])
    rest ← create_external_bridges ifaces
    ret (bridge_name ∷ rest)

  -- The loop of `createBridgeNetworks`: the mapping grows from round to round.
  unfoldable pub map_bridges : String → List String → M (Unit {0})
  unfolding extend_mapping
  map_bridges bridge_map [] = ret tt
  map_bridges bridge_map (bridge ∷ bridges) = do
    let mapping = extend_mapping bridge_map (get_physnet_name env bridge) bridge
    vs_ctl env (
        "--"
        ∷ "set"
        ∷ "bridge"
        ∷ bridge
        ∷ managed
        ∷ "--"
        ∷ "set"
        ∷ "Open_vSwitch"
        ∷ "."
        ∷ mapping_args mapping)
    map_bridges mapping bridges

  -- `createBridgeNetworks`
  unfoldable pub create_bridge_networks : List String → M (List String)
  create_bridge_networks bridges = do
    bridge_map ← lookup_mapping
    map_bridges bridge_map bridges
    ret bridges

  -- The loop of `createVrf`.
  unfoldable pub maintain_vrf : List String → M (Unit {0})
  maintain_vrf [] = ret tt
  maintain_vrf (brg ∷ brgs) = do
    on_error
        (λ e.
          errorf ("failed to enable vrf for LRP '" <> get_lrp_name env brg <> "': " <> e.message))
        (nb_ctl_cluster env (
          "lrp-set-options"
          ∷ get_lrp_name env brg
          ∷ "dynamic-routing-maintain-vrf=true"
          ∷ "dynamic-routing-redistribute=nat,lb"
          ∷ ("dynamic-routing-port-name=" <> get_bgp_redirect_iface_name brg)
          ∷ []))
    maintain_vrf brgs

  -- `createVrf`
  unfoldable pub create_vrf : List String → String → M (Unit {0})
  create_vrf bridges table_id = do
    on_error
        (λ e. errorf ("failed to create vrf for LR '" <> get_lr_name env <> "': " <> e.message))
        (check_kernel_module env "vrf")
    on_error
        (λ e. errorf ("failed to create vrf for LR '" <> get_lr_name env <> "': " <> e.message))
        (nb_ctl_cluster env (
          "set"
          ∷ "Logical_Router"
          ∷ get_lr_name env
          ∷ "options:dynamic-routing=true"
          ∷ ("options:dynamic-routing-vrf-id=" <> table_id)
          ∷ []))
    maintain_vrf bridges

module _ (env : Env) (md5 : String → List ℕ) where
  -- The loop of `createExternalNetworks`.
  unfoldable pub connect_networks : List String → M (Unit {0})
  connect_networks [] = ret tt
  connect_networks (brg ∷ brgs) = do
    let ls_name = get_ls_name env brg
    let lsp_name = get_lsp_name env brg
    let patch_name = get_patch_name env brg
    let lrp_name = get_lrp_name env brg
    nb_ctl_cluster env (
        "--"
        ∷ "lrp-add"
        ∷ get_lr_name env
        ∷ lrp_name
        ∷ generate_lrp_mac md5 lrp_name
        ∷ "--"
        ∷ "ls-add"
        ∷ ls_name
        ∷ "--"
        ∷ "set"
        ∷ "Logical_Switch"
        ∷ ls_name
        ∷ managed
        ∷ "--"
        ∷ "lsp-add"
        ∷ ls_name
        ∷ lsp_name
        ∷ "--"
        ∷ "lsp-set-type"
        ∷ lsp_name
        ∷ "router"
        ∷ "--"
        ∷ "lsp-set-options"
        ∷ lsp_name
        ∷ ("router-port=" <> lrp_name)
        ∷ "--"
        ∷ "lsp-set-addresses"
        ∷ lsp_name
        ∷ "router"
        ∷ "--"
        ∷ "lsp-add"
        ∷ ls_name
        ∷ patch_name
        ∷ "--"
        ∷ "lsp-set-addresses"
        ∷ patch_name
        ∷ "unknown"
        ∷ "--"
        ∷ "lsp-set-type"
        ∷ patch_name
        ∷ "localnet"
        ∷ "--"
        ∷ "lsp-set-options"
        ∷ patch_name
        ∷ ("network_name=" <> get_physnet_name env brg)
        ∷ [])
    connect_networks brgs

  -- `createExternalNetworks`
  unfoldable pub create_external_networks : List String → M (Unit {0})
  create_external_networks bridges = do
    let lr_name = get_lr_name env
    nb_ctl_cluster env (
        "--"
        ∷ "lr-add"
        ∷ lr_name
        ∷ "--"
        ∷ "set"
        ∷ "Logical_Router"
        ∷ lr_name
        ∷ ("options:chassis=" <> env.name)
        ∷ "--"
        ∷ "set"
        ∷ "Logical_Router"
        ∷ lr_name
        ∷ managed
        ∷ [])
    connect_networks bridges

  -- The pairs of interfaces that `generateVeth` adds to the netplan configuration.
  unfoldable pub add_veths : List String → Network → Network
  unfolding put_entry
  add_veths [] np = np
  add_veths (brg ∷ brgs) np =
      let bgp_interface = get_bgp_redirect_iface_name brg in
      let brg_interface = get_bgp_redirect_iface_peer_name brg in
      let mac = generate_lrp_mac md5 (get_lrp_name env brg) in
      add_veths brgs (
        add_veth (add_veth np bgp_interface brg_interface mac false ("ipv6" ∷ [])) brg_interface
          bgp_interface "" false [])

-- The texts of drPortMapping: `written` is the text so far.
unfoldable pub port_mapping : String → List String → String
port_mapping written [] = written
port_mapping written (brg ∷ brgs) =
    let bgp_interface = get_bgp_redirect_iface_name brg in
    let sep = if written == "" then written else written <> "," in
    port_mapping (sep <> bgp_interface <> "=" <> bgp_interface) brgs

-- Whatever f names for each bridge.
unfoldable pub names_of : (String → String) → List String → List String
names_of f [] = []
names_of f (brg ∷ brgs) = f brg ∷ names_of f brgs

-- `np.Network.OpenvSwitch.ExternalIDs[key] = value`
abbrev set_external_id : Network → String → String → Network
set_external_id c key value = record c {
  openv_switch = record c.openv_switch {
    external_ids = put_entry key value c.openv_switch.external_ids;
  };
}

abbrev pub netplan_file : String
netplan_file = "90-microovn-bgp-veth.yaml"

module _ (env : Env) (md5 : String → List ℕ) where
  -- The configuration that `generateVeth` writes, given the integration bridge.
  unfoldable pub veth_config : String → List String → String → Network
  unfolding add_veths port_mapping names_of put_entry
  veth_config br_int bridges table_id =
      let veths = add_veths env md5 bridges new_config in
      let vrfs =
        add_vrf veths (get_vrf_name table_id) table_id
          (names_of get_bgp_redirect_iface_name bridges) in
      let all = add_bridge vrfs br_int (names_of get_bgp_redirect_iface_peer_name bridges) in
      set_external_id all "dynamic-routing-port-mapping" (port_mapping "" bridges)

module _ (env : Env) where
  -- The last loop of `generateVeth`.
  unfoldable pub bind_interfaces : String → List String → M (Unit {0})
  bind_interfaces vrf_name [] = ret tt
  bind_interfaces vrf_name (iface ∷ ifaces) = do
    on_error
        (λ e.
          errorf (
            "failed to bind interface '" <> iface <> "' to VRF '" <> vrf_name <> "': "
            <> e.message))
        (run_command env "ip" ("link" ∷ "set" ∷ "dev" ∷ iface ∷ "master" ∷ vrf_name ∷ []))
    on_error (λ e. errorf ("failed to bring up interface '" <> iface <> "': " <> e.message))
        (run_command env "ip" ("link" ∷ "set" ∷ "dev" ∷ iface ∷ "up" ∷ []))
    bind_interfaces vrf_name ifaces

  -- The loop of `redirectBgp`.
  unfoldable pub redirect_ports : String → List String → M (Unit {0})
  redirect_ports vrf_name [] = ret tt
  redirect_ports vrf_name (brg ∷ brgs) = do
    let lrp_name = get_lrp_name env brg
    let brg_iface = get_bgp_redirect_iface_peer_name brg
    let bgp_lsp = get_lsp_name env (get_bgp_redirect_iface_name brg)
    let port = "Logical_Router_Port" ∷ lrp_name ∷ []
    on_error
        (λ e. errorf ("failed to create LSP for BGP redirect '" <> bgp_lsp <> "': " <> e.message))
        (nb_ctl_cluster env (
          "--"
            ∷ "lsp-add"
            ∷ get_ls_name env brg
            ∷ bgp_lsp
            ∷ "--"
            ∷ "lsp-set-addresses"
            ∷ bgp_lsp
            ∷ "unknown"
            ∷ "--"
            ∷ "add"
            ∷ port
          ++ "options" ∷ ("routing-protocol-redirect=" <> bgp_lsp) ∷ "--" ∷ "add" ∷ port
          ++ "options" ∷ "routing-protocols=\"BGP,BFD\"" ∷ "--" ∷ "set" ∷ port
          ++ "ipv6_ra_configs:send_periodic=true" ∷ "--" ∷ "set" ∷ port
          ++ "ipv6_ra_configs:address_mode=slaac" ∷ "--" ∷ "set" ∷ port
          ++ "ipv6_ra_configs:max_interval=4" ∷ "--" ∷ "set" ∷ port
          ++ "ipv6_ra_configs:min_interval=3" ∷ []))
    on_error
        (λ e.
          errorf ("failed to create port for BGP redirect '" <> brg_iface <> "': " <> e.message))
        (vs_ctl env (
          "--"
          ∷ "set"
          ∷ "Port"
          ∷ brg_iface
          ∷ managed
          ∷ ("external-ids:" <> bgp_vrf_table <> "=" <> vrf_name)
          ∷ "--"
          ∷ "set"
          ∷ "Interface"
          ∷ brg_iface
          ∷ "type=system"
          ∷ ("external_ids:iface-id=" <> bgp_lsp)
          ∷ managed
          ∷ []))
    redirect_ports vrf_name brgs

module _ (env : Env) (md5 : String → List ℕ) (yaml : Yaml) where
  -- `generateVeth`
  unfoldable pub generate_veth : List String → String → M (Unit {0})
  unfolding names_of
  generate_veth bridges table_id = do
    br_int ←
        on_error (λ e. errorf ("failed to lookup integration bridge: " <> e.message))
          (get_ovn_integration_bridge env)
    write_to_netplan env yaml netplan_file (veth_config env md5 br_int bridges table_id)
    apply env
    bind_interfaces env (get_vrf_name table_id) (names_of get_bgp_redirect_iface_name bridges)

  -- `redirectBgp`
  unfoldable pub redirect_bgp : List String → String → M (Unit {0})
  redirect_bgp bridges table_id = do
    generate_veth bridges table_id
    redirect_ports env (get_vrf_name table_id) bridges
