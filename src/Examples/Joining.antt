-- ===== src/Examples/Joining.antt =====
-- The theorems on a member that joins, on the settings of BGP for the cluster, and on pairs of interfaces, at
-- work.
use microovn.Prelude.{any, String, true, false, some, List, [], ◌∷◌, ◌&&◌, ◌||◌, ◌==◌, ◌≡◌, refl}
use microovn.Text.{◌<>◌, split, trim_space, format}
use microovn.Database.{id_of, name_of, unique_members}
use microovn.Database.Config.{
  config_item_exists, get_config_item, get_config_item_id, get_config_items, select_config,
}
use microovn.Database.Services.{
  get_services, select_services, create_service, service_exists, get_service_id,
}
use microovn.Database.Services.View.{enabled}
use microovn.Types.{parse_names, check_valid_service}
use microovn.Config.{get_config}
use microovn.Snap.{start}
use microovn.Environment.{
  create_paths, create_dirs, generate_environment, central_ips, remote_addresses_from_config,
  or_default, central_addresses, addresses, connection_string, network_protocol,
  is_external_central_configured,
}
use microovn.Certificates.{
  dump_ca, generate_new_service_certificate, get_ca, read_ca, parse_private_key, issue_certificate,
  get_service_certificate_paths,
}
use microovn.Commands.{vs_ctl, new_ovsdb_spec, wait_for_db_state, retry}
use microovn.Dpu.{dpu_setup, detect_dpu, find_dpu_devlink}
use microovn.Node.{has_service_active, activate_service}
use microovn.Node.Lifecycle.{enable_service, start_service, start_or_forget}
use microovn.ApiBgp.{enable_bgp_from_ovs, enable_on_bridges, find_bridges}
use microovn.Hooks.Requested.{RequestedServices, new_requested_services, request_each}
use microovn.Hooks.Options.{read_join_options, read_services}
use microovn.Hooks.Bootstrap.{HookLibraries}
use microovn.Hooks.Join.{count_central, start_joined, join_cluster}
use microovn.Hooks.Growth.{among}
use microovn.Hooks.Started.{started}
use microovn.Hooks.Joined.{asked, default_services, join_cluster-enabled}
use microovn.Effect.{World, ok, transaction, call, on_error, attempt, now, ◌>>=◌}
use microovn.Types.{empty_bgp_config}
use microovn.Database.Config.{create_config_item, update_config_item}
use microovn.Config.{set_config}
use microovn.Config.Map.{option}
use microovn.ApiBgp.{
  SetupBgpRequest, settings, save, key_cluster, key_interface, key_bridge, key_asn, key_asn_range,
  key_ip4_range,
}
use microovn.ApiBgp.Saved.{save-settings}
use microovn.Netplan.{
  Network, put_entry, new_config, add_veth, cleanup_veths, cleanup_virtual_ethernets,
}
use microovn.Netplan.Cleanup.{tried, paired, cleanup_virtual_ethernets-paired}
use microovn.Examples.{env, bgp, members}

-- A cluster where member a has joined, and only member b runs services.
abbrev joining : World
joining = record {
  db = record {
    members = members;
    services = record { id = 1; member_id = 2; service = "central" } ∷ [];
    config =
        record { id = 1; key = "ca_cert"; value = "cert" }
        ∷ record { id = 2; key = "ca_key"; value = "key" }
        ∷ [];
    next_service = 2;
    next_config = 3;
  };
  calls = [];
}

joining_unique : unique_members joining.db.members ≡ true
unfolding unique_members
joining_unique = refl

abbrev libs : HookLibraries
libs = record {
  x509 = record { chain = λ pair. "der" ∷ []; is_ca = λ cert. true; key_usage = λ cert. 96 };
  devlink = λ out. ok [];
}

abbrev init : List (String × String)
init = ("ovn-encap-ip", "10.1.0.1") ∷ ("ovn-services", "switch") ∷ []

join_runs : (join_cluster env bgp libs init joining).0 ≡ ok tt
unfolding join_cluster start_joined create_paths create_dirs count_central get_services
    select_services name_of is_external_central_configured get_config config_item_exists
    get_config_item_id read_join_options read_services new_requested_services request_each split
    generate_environment central_ips remote_addresses_from_config or_default central_addresses
    addresses connection_string network_protocol get_ca read_ca get_config_item get_config_items
    select_config generate_new_service_certificate issue_certificate parse_private_key dump_ca
    enable_service start_service start_or_forget activate_service has_service_active id_of
    create_service service_exists get_service_id start check_valid_service dpu_setup detect_dpu
    enable_bgp_from_ovs find_bridges vs_ctl new_ovsdb_spec wait_for_db_state retry enable_on_bridges
    transaction call on_error attempt now ◌>>=◌ get_service_certificate_paths find_dpu_devlink
    parse_names trim_space
join_runs = refl

join_cluster-enabled_example :
    (r : RequestedServices) × (asked (default_services joining) init ≡ ok r)
    × (enabled (join_cluster env bgp libs init joining).1.db "a" "switch"
        ≡ (enabled joining.db "a" "switch" || ("a" == "a" && among (started r) "switch")))
join_cluster-enabled_example =
    join_cluster-enabled env bgp libs joining joining_unique init "a" "switch" refl join_runs

-- A setup on an interface, in a cluster whose options name a bridge.
abbrev with_bridge : World
with_bridge = record joining {
  db = record joining.db { config = record { id = 1; key = key_bridge; value = "br0" } ∷ [] };
}

abbrev request : SetupBgpRequest
request = record {
  config = record empty_bgp_config {
    external_connection = "eth1";
    asn_min = 4200000000;
    asn_max = 4200000009;
  };
  connection_ip4_range = "";
}

save_runs : (save env (settings env request) with_bridge).0 ≡ ok tt
unfolding save settings set_config config_item_exists get_config_item_id create_config_item
    update_config_item format transaction call on_error attempt ◌>>=◌
save_runs = refl

save-settings_example :
    (option (save env (settings env request) with_bridge).1 key_cluster ≡ some "true")
    × (option (save env (settings env request) with_bridge).1 key_interface ≡ some "eth1")
    × (option (save env (settings env request) with_bridge).1 key_bridge
        ≡ option with_bridge key_bridge)
    × (option (save env (settings env request) with_bridge).1 key_asn ≡ option with_bridge key_asn)
    × (option (save env (settings env request) with_bridge).1 key_asn_range
        ≡ some (format 4200000000 <> "-" <> format 4200000009))
    × (option (save env (settings env request) with_bridge).1 key_ip4_range
        ≡ option with_bridge key_ip4_range)
save-settings_example = save-settings env request with_bridge save_runs

-- Both ends of one pair.
abbrev pair : Network
pair = add_veth (add_veth new_config "veth0" "veth1" "" false []) "veth1" "veth0" "" false []

cleanup_runs : (cleanup_virtual_ethernets env pair joining).0 ≡ ok tt
unfolding cleanup_veths put_entry call attempt ◌>>=◌
cleanup_runs = refl

cleanup_virtual_ethernets-paired_example :
    (tried (cleanup_virtual_ethernets env pair joining).1 "veth1"
      || any (paired (cleanup_virtual_ethernets env pair joining).1 "veth1") pair.virtual_ethernets)
    ≡ true
unfolding put_entry
cleanup_virtual_ethernets-paired_example =
    cleanup_virtual_ethernets-paired env pair "veth1" joining cleanup_runs refl
