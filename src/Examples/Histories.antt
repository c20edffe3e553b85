-- ===== src/Examples/Histories.antt =====
-- The theorems on the histories of a cluster, and on its first member, at work.
use microovn.Prelude.{String, true, some, none, List, [], ◌∷◌, ◌==◌, ◌&&◌, ◌||◌, ◌≡◌, refl}
use microovn.Database.{id_of, name_of, unique_members}
use microovn.Database.Services.View.{enabled}
use microovn.Hooks.Requested.{RequestedServices}
use microovn.Hooks.Bootstrap.{HookLibraries, bootstrap, choose_ca}
use microovn.Hooks.Bootstrapped.{all_services, bootstrap-enabled}
use microovn.Hooks.Joined.{asked}
use microovn.Hooks.Started.{started}
use microovn.Hooks.Growth.{among}
use microovn.History.{Daemon, Hook, Request, Event, hook, request, run_history}
use microovn.History.Members.{run_history-others}
use microovn.Effect.{World, ok}
use microovn.Examples.{db_unique, env, bgp, db, start_world, members}
use microovn.Text.{split, trim_space}
use microovn.Database.Config.{
  config_item_exists, create_config_item, get_config_item, get_config_item_id, get_config_items,
  select_config, update_config_item,
}
use microovn.Database.Services.{
  create_service, get_service_id, get_services, select_services, service_exists,
}
use microovn.Types.{check_valid_service, parse_names}
use microovn.Config.{get_config}
use microovn.Snap.{start}
use microovn.Environment.{
  addresses, central_addresses, central_ips, connection_string, create_dirs, create_paths,
  generate_environment, network_protocol, or_default, remote_addresses_from_config,
}
use microovn.Certificates.{
  dump_ca, generate_new_ca_certificate, generate_new_service_certificate, get_ca,
  get_service_certificate_paths, issue_certificate, parse_private_key, read_ca, store_ca, upsert,
  upsert_ca,
}
use microovn.Commands.{new_ovsdb_spec, retry, vs_ctl, wait_for_db_state}
use microovn.Dpu.{detect_dpu, dpu_setup, find_dpu_devlink}
use microovn.Node.{activate_service, has_service_active}
use microovn.Node.Lifecycle.{enable_service, start_or_forget, start_service}
use microovn.ApiBgp.{enable_bgp_from_ovs, enable_on_bridges, find_bridges}
use microovn.Hooks.Requested.{new_requested_services, request_each}
use microovn.Hooks.Options.{read_option, read_options, read_services}
use microovn.Effect.{attempt, call, now, on_error, transaction, ◌>>=◌}

abbrev libs : HookLibraries
libs = record {
  x509 = record { chain = λ pair. "der" ∷ []; is_ca = λ cert. true; key_usage = λ cert. 96 };
  devlink = λ out. ok [];
}

abbrev daemon : Daemon
daemon = record {
  env = env;
  bgp = bgp;
  libs = libs;
  replies = record {
    clients = λ out. [];
    exists = λ out. some true;
    setup = λ out. (true, []);
    reissued = λ out. [];
  };
  parse_ip = λ ip. true;
}

-- A request to enable the switch, an option, and the departure of the member.
abbrev history : List (Daemon × Event)
history =
    (daemon, request (Request.enable "switch" (some none)))
    ∷ (daemon, request (Request.set_config "ovn.central-ips" "10.0.0.9"))
    ∷ (daemon, hook Hook.pre_remove)
    ∷ []

run_history-others_example :
    ((run_history history start_world).db.members ≡ members)
    × (enabled (run_history history start_world).db "b" "switch" ≡ enabled db "b" "switch")
run_history-others_example = run_history-others history start_world "b" "switch" db_unique refl

-- A member alone, before the first service.
abbrev alone : World
alone = record { db = record db { services = []; config = [] }; calls = [] }

alone_unique : unique_members alone.db.members ≡ true
unfolding unique_members
alone_unique = refl

abbrev init : List (String × String)
init = ("ovn-services", "switch") ∷ []

bootstrap_runs : (bootstrap env bgp libs init alone).0 ≡ ok tt
unfolding bootstrap read_options read_option choose_ca generate_new_ca_certificate store_ca
    upsert_ca upsert update_config_item create_config_item create_paths create_dirs get_services
    select_services name_of get_config config_item_exists get_config_item_id read_services
    new_requested_services request_each split generate_environment central_ips
    remote_addresses_from_config or_default central_addresses addresses connection_string
    network_protocol get_ca read_ca get_config_item get_config_items select_config
    generate_new_service_certificate issue_certificate parse_private_key dump_ca enable_service
    start_service start_or_forget activate_service has_service_active id_of create_service
    service_exists get_service_id start check_valid_service dpu_setup detect_dpu enable_bgp_from_ovs
    find_bridges vs_ctl new_ovsdb_spec wait_for_db_state retry enable_on_bridges transaction call
    on_error attempt now ◌>>=◌ get_service_certificate_paths find_dpu_devlink parse_names trim_space
bootstrap_runs = refl

bootstrap-enabled_example :
    (r : RequestedServices) × (asked all_services init ≡ ok r)
    × (enabled (bootstrap env bgp libs init alone).1.db "a" "switch"
        ≡ (enabled alone.db "a" "switch" || ("a" == "a" && among (started r) "switch")))
bootstrap-enabled_example =
    bootstrap-enabled env bgp libs alone alone_unique init "a" "switch" refl bootstrap_runs
