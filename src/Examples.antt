-- ===== src/Examples.antt =====
-- The theorems at work on a small cluster, and tests of the definitions on it.
mod Library
pub mod CommandLine
mod Upgrade
mod Leaving
mod Endpoint
mod Redirect
mod Joining
mod Histories
use microovn.Prelude.{
  ℕ, zero, suc, ◌≤◌, ◌<◌, ◌%◌, ◌↔◌, ◌⊎◌, length, not, String, Bool, true, false, Option, none, some,
  List, [], ◌∷◌, ◌≡◌, ◌≢◌, refl, arith,
}
use microovn.Database.{Member, ServiceRow, ConfigItem, Db, id_of, name_of, unique_members}
use microovn.Effect.{Env, World, Call, Reply, out, fail, file, ok, err, ret, errorf, Error}
use microovn.Types.{
  ExtraBgpConfig, check_valid_service, srv_central, validate, from_map, parse_asn_range, max_uint32,
  empty_bgp_config, WarningSet,
}
use microovn.Node.Bgp.{BgpService}
use microovn.Effect.{transaction, call, on_error, attempt, now, ◌>>=◌}
use microovn.Database.Services.{
  get_services, service_exists, get_service_id, delete_service, create_service, select_services,
}
use microovn.Database.Config.{
  config_item_exists, get_config_item, get_config_items, get_config_item_id, select_config,
}
use microovn.Config.{get_config}
use microovn.Certificates.{get_ca, read_ca}
use microovn.Environment.{
  generate_environment, central_ips, remote_addresses_from_config, or_default, central_addresses,
  connection_string, network_protocol, addresses,
}
use microovn.Snap.{start, stop}
use microovn.Paths.{central_db_backup_path}
use microovn.Commands.{new_ovsdb_spec, wait_for_db_state, app_ctl}
use microovn.Node.{
  leave_central, wait_removed, move_to_backup, deactivate_service, has_service_active, find_service,
  members_with, activate_service,
}
use microovn.Node.Lifecycle.{
  disable_service, enable_service, check_last_central, stop_service, start_service, start_or_forget,
}
use microovn.Node.Lifecycle.{disable_all_services}
use microovn.Node.Lifecycle.Central.{centrals, disable-centrals}
use microovn.Node.Lifecycle.Disable.{disable_service-enabled, disable_service-frame}
use microovn.Node.Lifecycle.Enable.{enable_service-enabled, enable_service-frame}
use microovn.Node.Queries.{
  members_of, has_service_active-enabled, find_service-members, service_warnings-silent,
}
use microovn.Node.{service_warnings}
use microovn.Database.Services.View.{enabled, enabled-insert, enabled-delete}
use microovn.Certificates.{store_ca, upsert_ca, upsert}
use microovn.Certificates.Ca.{is_ca, store_ca-option}
use microovn.Config.{set_config, delete_config}
use microovn.Config.Map.{
  option, set_config-option, set_config-undo, get_config-option, delete_config-option,
}
use microovn.Database.Config.{create_config_item, update_config_item, delete_config_item}

-- Two members, both with OVN central, the first one also with the chassis.
abbrev pub members : List Member
members =
    record { id = 1; name = "a"; address = "10.0.0.1:6443" }
    ∷ record { id = 2; name = "b"; address = "10.0.0.2:6443" }
    ∷ []

abbrev db : Db
db = record {
  members = members;
  services =
      record { id = 1; member_id = 1; service = "central" }
      ∷ record { id = 2; member_id = 2; service = "central" }
      ∷ record { id = 3; member_id = 1; service = "chassis" }
      ∷ [];
  config = record { id = 1; key = "ca_cert"; value = "old" } ∷ [];
  next_service = 4;
  next_config = 2;
}

-- A host on which every call succeeds.
abbrev env : Env
env = record {
  name = "a";
  address = "10.0.0.1";
  snap = "/snap";
  snap_common = "/var";
  host_of = λ a. some a;
  is_ip6 = λ a. false;
  respond = λ calls c. out "";
}

abbrev bgp : BgpService
bgp = record {
  enable = λ config w. (ok tt, w);
  disable = λ w. (ok tt, w);
  enable-db = λ config w. refl;
  disable-db = λ w. refl;
}

abbrev start_world : World
start_world = record { db = db; calls = [] }

db_unique : unique_members db.members ≡ true
unfolding unique_members
db_unique = refl

disable_runs : (disable_service env bgp "central" false start_world).0 ≡ ok tt
unfolding disable_service check_last_central stop_service leave_central id_of name_of wait_removed
    move_to_backup deactivate_service has_service_active find_service members_with get_services
    select_services service_exists get_service_id delete_service transaction call on_error attempt
    now ◌>>=◌ central_db_backup_path new_ovsdb_spec wait_for_db_state app_ctl stop
disable_runs = refl

enable_runs : (enable_service env bgp "switch" none start_world).0 ≡ ok tt
unfolding enable_service start_service start_or_forget activate_service has_service_active id_of
    name_of get_services select_services create_service service_exists get_service_id
    generate_environment central_ips remote_addresses_from_config or_default central_addresses
    get_config config_item_exists get_config_item_id connection_string network_protocol get_ca
    read_ca get_config_item get_config_items select_config addresses transaction call on_error
    attempt now ◌>>=◌ start check_valid_service
enable_runs = refl

two_centrals : 0 < centrals db
unfolding centrals enabled name_of
two_centrals = omega arith

disable-centrals_example :
    (0 < centrals (disable_service env bgp "central" false start_world).1.db)
    × (0 < centrals (disable_all_services env bgp start_world).1.db)
disable-centrals_example = disable-centrals env bgp start_world "central" db_unique two_centrals

disable_service-enabled_example :
    (enabled db "a" "central" ≡ true)
    × (enabled (disable_service env bgp "central" false start_world).1.db "b" "central" ≡ true)
unfolding enabled name_of
disable_service-enabled_example =
    disable_service-enabled env bgp start_world db_unique "central" false "b" "central" disable_runs

disable_service-frame_example :
    enabled (disable_service env bgp "central" false start_world).1.db "a" "chassis"
    ≡ enabled db "a" "chassis"
disable_service-frame_example =
    disable_service-frame env bgp start_world db_unique "central" false "a" "chassis" refl

enable_service-enabled_example :
    (check_valid_service "switch" ≡ true)
    × (enabled db "a" "switch" ≡ false)
    × (enabled (enable_service env bgp "switch" none start_world).1.db "a" "switch" ≡ true)
unfolding enabled name_of
enable_service-enabled_example =
    enable_service-enabled env bgp start_world db_unique "switch" none "a" "switch" enable_runs

enable_service-frame_example :
    enabled (enable_service env bgp "switch" none start_world).1.db "b" "central"
    ≡ enabled db "b" "central"
enable_service-frame_example =
    enable_service-frame env bgp start_world db_unique "switch" none "b" "central" refl

has_runs : (has_service_active env "chassis" start_world).0 ≡ ok true
unfolding has_service_active name_of get_services select_services transaction call on_error ◌>>=◌
has_runs = refl

has_service_active-enabled_test : true ≡ enabled db "a" "chassis"
has_service_active-enabled_test = has_service_active-enabled env "chassis" start_world has_runs

find_runs : (find_service env "central" start_world).0 ≡ ok members
unfolding find_service id_of name_of members_with service_exists get_service_id transaction call
    on_error attempt ◌>>=◌
find_runs = refl

find_service-members_test : members ≡ members_of db "central"
find_service-members_test = find_service-members env "central" start_world find_runs

abbrev two_nodes : WarningSet
two_nodes = record { even_central = true; few_central = true }

warnings_run : (service_warnings env start_world).0 ≡ ok two_nodes
unfolding service_warnings find_service id_of name_of members_with service_exists get_service_id
    transaction call on_error attempt ◌>>=◌
warnings_run = refl

service_warnings-silent_test :
    (two_nodes ≡ record { even_central = false; few_central = false }) ↔ (
      (length (members_of db srv_central) ≡ 0)
      ⊎ ((3 ≤ length (members_of db srv_central)) × (length (members_of db srv_central) % 2 ≡ 1)))
service_warnings-silent_test = service_warnings-silent env start_world warnings_run

store_runs : (store_ca env "new" "key" true start_world).0 ≡ ok true
unfolding store_ca upsert_ca upsert create_config_item update_config_item get_config_item
    get_config_items select_config config_item_exists get_config_item_id transaction call on_error
    attempt ◌>>=◌
store_runs = refl

store_ca-option_example :
    (option (store_ca env "new" "key" true start_world).1 "ca_key" ≡ some "key")
    × (true ≡ not (is_ca "new" "key" true start_world))
store_ca-option_example = store_ca-option env "new" "key" true start_world "ca_key" store_runs

set_runs : (set_config env "ca_cert" "new" start_world).0 ≡ ok tt
unfolding set_config update_config_item config_item_exists get_config_item_id transaction call
    on_error attempt ◌>>=◌
set_runs = refl

set_config-option_example :
    option (set_config env "ca_cert" "new" start_world).1 "ca_cert" ≡ some "new"
set_config-option_example = set_config-option env "ca_cert" "new" start_world "ca_cert" set_runs

get_runs : (get_config env "ca_key" start_world).0 ≡ ok none
unfolding get_config config_item_exists get_config_item_id transaction call on_error attempt ◌>>=◌
get_runs = refl

get_config-option_example :
    (none ≡ option start_world "ca_key") × ((get_config env "ca_key" start_world).1.db ≡ db)
get_config-option_example = get_config-option env "ca_key" start_world get_runs

delete_runs : (delete_config env "ca_cert" start_world).0 ≡ ok tt
unfolding delete_config delete_config_item config_item_exists get_config_item_id transaction call
    on_error attempt ◌>>=◌
delete_runs = refl

delete_config-option_example : option (delete_config env "ca_cert" start_world).1 "ca_cert" ≡ none
delete_config-option_example = delete_config-option env "ca_cert" start_world "ca_cert" delete_runs

-- A host on which every call fails.
abbrev broken : Env
broken = record env { respond = λ calls c. fail "refused" }

set_fails : (set_config broken "ca_cert" "new" start_world).0 ≢ ok tt
unfolding set_config transaction call on_error ◌>>=◌
set_fails h = ground arith

set_config-undo_test :
    option (set_config broken "ca_cert" "new" start_world).1 "ca_cert"
    ≡ option start_world "ca_cert"
set_config-undo_test = set_config-undo broken "ca_cert" "new" start_world "ca_cert" set_fails
