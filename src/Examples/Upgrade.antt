-- ===== src/Examples/Upgrade.antt =====
-- The theorems on the upgrade of the OVN databases at work.
use microovn.Prelude.{
  ◌≤◌, String, true, List, [], ◌∷◌, ◌≡◌, ◌≢◌, ◌==◌, refl, ltb, all, arith, if◌then◌else◌,
}
use microovn.Text.{trim_space}
use microovn.Database.{id_of, name_of}
use microovn.Database.Services.{service_exists, get_service_id}
use microovn.Commands.{OvsdbSpec, ovsdb_client, wait_for_db_state}
use microovn.Node.{find_service, members_with}
use microovn.Effect.{
  Env, Call, Reply, command, out, fail, panic, M, ret, ok, call, transaction, on_error, attempt,
  ◌>>=◌,
}
use microovn.Ovsdb.{
  SchemaStatus, Round, insert_member, sort_members, leads, is_node_upgrade_leader,
  is_cluster_upgrade_ready, convert_if_ready, upgrade_step, upgrade_loop, get_live_schema_status,
  expected_schema_version,
}
use microovn.Ovsdb.BackOff.{back_off_after, back_off_after-value}
use microovn.Ovsdb.Leader.{is_least, leader_unique}
use microovn.Ovsdb.Rounds.{upgrade_step-converted}
use microovn.Node.Queries.{members_of}
use microovn.Types.{srv_central}
use microovn.Effect.Keeps.{Keeps}
use microovn.Ovsdb.Waiting.{waits, Later}
use microovn.Ovsdb.Progress.{upgrade_loop-done}
use microovn.Examples.{env, db, start_world}

abbrev spec : OvsdbSpec
spec = record {
  socket_url = "unix:/nb.sock";
  name = "OVN_Northbound";
  short_name = "nb";
  friendly_name = "Northbound";
  schema = "/nb.ovsschema";
  is_central = true;
}

-- Both members expect version 7.
abbrev peers : OvsdbSpec → M (List String)
peers d = ret ("7" ∷ "7" ∷ [])

abbrev outdated : SchemaStatus
outdated = record { local_version = "6"; target_version = "7"; upgrade_required = true }

leader_runs : (is_node_upgrade_leader env peers start_world).0 ≡ ok true
unfolding is_node_upgrade_leader insert_member sort_members leads find_service members_with id_of
    name_of service_exists get_service_id transaction call on_error attempt ◌>>=◌
leader_runs = refl

leader_unique_example : env.name ≡ "a"
leader_unique_example =
    leader_unique env env peers start_world start_world refl leader_runs leader_runs

step_runs : (upgrade_step env peers spec outdated start_world).0 ≡ ok Round.converted
unfolding upgrade_step convert_if_ready is_cluster_upgrade_ready ovsdb_client wait_for_db_state
    is_node_upgrade_leader insert_member sort_members leads find_service members_with id_of name_of
    service_exists get_service_id transaction call on_error attempt ◌>>=◌
step_runs = refl

upgrade_step-converted_example :
    (true ≡ true)
    × (is_least env.name (members_of db srv_central) ≡ true)
    × ((vs : List String) × ((peers spec (is_node_upgrade_leader env peers start_world).1).0
          ≡ ok vs)
        × (all (λ v. v == "7") vs ≡ true))
upgrade_step-converted_example =
    upgrade_step-converted env peers spec outdated start_world step_runs

back_off_after-value_test : back_off_after 3 ≡ 800
back_off_after-value_test = back_off_after-value 3

-- The file holds version 7, and the database another one.
abbrev upgrade_reply : Call → Reply
upgrade_reply (command cmd (arg ∷ args)) =
    if arg == "compare-versions"
    then fail ""
    else if arg == "schema-version"
    then out "7"
    else out ""
upgrade_reply c = out ""

abbrev upgrading : Env
upgrading = record env { respond = λ calls c. upgrade_reply c }

-- The other member expects version 6 until the leader has waited twice.
abbrev slow_peers : OvsdbSpec → M (List String)
slow_peers s w = (ok ("7" ∷ (if ltb (waits w.calls) 2 then "6" else "7") ∷ []), w)

slow_report :
    (cs : List Call)
    → 2 ≤ waits cs
    → (vs : List String) × ((slow_peers spec (record { db = db; calls = cs })).0 ≡ ok vs)
      × (all (λ v. v == "7") vs ≡ true)
slow_report cs h = ("7" ∷ "7" ∷ [], ground arith, refl)

slow_reply : (cs : List Call) → (slow_peers spec (record { db = db; calls = cs })).0 ≢ panic
slow_reply cs h = cc

slow_frame : Keeps Later (slow_peers spec)
slow_frame = record { at = λ w. (refl, omega arith) }

slow_converts :
    (cs : List Call)
    → (s : String) × ((ovsdb_client upgrading spec 10 60
          ("convert" ∷ spec.socket_url ∷ spec.schema ∷ [])
          (record { db = db; calls = cs })).0
        ≡ ok s)
unfolding ovsdb_client wait_for_db_state call on_error ◌>>=◌
slow_converts cs = ("", refl)

slow_knows :
    (cs : List Call)
    → (s : SchemaStatus) × ((get_live_schema_status upgrading slow_peers spec
          (record { db = db; calls = cs })).0
        ≡ ok s)
      × (s.target_version ≡ "7")
unfolding get_live_schema_status expected_schema_version ovsdb_client wait_for_db_state call
    on_error attempt trim_space ◌>>=◌
slow_knows cs =
    (record { local_version = ""; target_version = "7"; upgrade_required = true }, refl, refl)

slow_leads :
    (cs : List Call)
    → (is_node_upgrade_leader upgrading slow_peers (record { db = db; calls = cs })).0 ≡ ok true
unfolding is_node_upgrade_leader insert_member sort_members leads find_service members_with id_of
    name_of service_exists get_service_id transaction call on_error attempt ◌>>=◌
slow_leads cs = refl

upgrade_loop-done_example :
    (upgrade_loop upgrading slow_peers 3 100 spec (record { db = db; calls = [] })).0 ≡ ok true
upgrade_loop-done_example =
    upgrade_loop-done upgrading slow_peers spec db "7" 2 slow_report slow_reply slow_frame
      slow_converts slow_knows slow_leads 100 []
