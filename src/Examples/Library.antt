-- ===== src/Examples/Library.antt =====
-- The theorems on hosts, commands, configurations and BGP at work.
use microovn.Prelude.{
  ℕ, suc, ◌+◌, ◌%◌, ◌-◌, ◌≤◌, ◌<◌, ◌↔◌, ◌⊎◌, ◌&&◌, ◌==◌, String, true, false, none, some, List, [],
  ◌∷◌, ◌≡◌, ◌≢◌, refl, arith, eq_iff, if◌then◌else◌,
}
use microovn.Text.{◌<>◌, join, cons, format, parse_uint, is_int, split, trim_space}
use microovn.Database.{id_of, name_of}
use microovn.Database.Services.{insert_service, delete_rows, get_services, select_services}
use microovn.Database.Services.View.{enabled, enabled-insert, enabled-delete}
use microovn.Database.Config.{config_item_exists, get_config_item_id}
use microovn.Effect.{
  Env, Call, Reply, Error, out, fail, file, command, ok, err, errorf, transaction, call, on_error,
  attempt, now, ◌>>=◌,
}
use microovn.Config.{get_config}
use microovn.Config.Map.{option}
use microovn.Types.{
  ExtraBgpConfig, validate, from_map, parse_asn_range, parse_external_connection, parse_bridge,
  empty_bgp_config,
}
use microovn.Types.Validation.{IsValidConfig, validate_iff, from_map-IsValidConfig}
use microovn.Types.AsnRange.{parse_asn_range-format}
use microovn.Environment.{
  central_ips, remote_addresses_from_config, or_default, central_addresses, addresses,
  initial_nb_sb_host, bracketed, cleanup_paths, make_backup, each_error, backup, remove_dir,
}
use microovn.Environment.Hosts.{chosen_hosts, central_ips-hosts, initial_host-remote}
use microovn.Environment.Cleanup.{cleanup_paths-fails}
use microovn.Environment.Removal.{removed, BackedUp, cleanup_paths-removal}
use microovn.Commands.{retry}
use microovn.Commands.Retry.{runs, AllFail, retry-runs}
use microovn.Bgp.Asn.{asn_number, range_size, asn_number-range, asn_number-distinct}
use microovn.Bgp.Vrf.{search_id, all_used, is_used, search_id-least, search_id-total}
use microovn.Examples.{db, env, start_world, db_unique}

enabled-insert_test : enabled (insert_service 1 "switch" db) "a" "switch" ≡ true
unfolding enabled name_of
enabled-insert_test = enabled-insert db "a" "switch" "a" "switch" 1 db_unique (unfold id_of in refl)

enabled-delete_test :
    enabled (delete_rows (id_of "a" db.members) "central" db) "a" "central" ≡ false
unfolding enabled name_of
enabled-delete_test = enabled-delete db "a" "central" "a" "central" db_unique

abbrev both : List String
both = "10.0.0.1:6443" ∷ "10.0.0.2:6443" ∷ []

ips_run : (central_ips env start_world).0 ≡ ok both
unfolding central_ips remote_addresses_from_config or_default central_addresses addresses get_config
    get_services select_services name_of config_item_exists get_config_item_id transaction call
    on_error attempt ◌>>=◌
ips_run = refl

central_ips-hosts_example : chosen_hosts env (option start_world "ovn.central-ips") db ≡ some both
central_ips-hosts_example = central_ips-hosts env start_world ips_run

abbrev remote : String
remote = "10.0.0.2"

remote_differs : remote ≢ env.address
remote_differs h = ground (arith, eq_iff remote env.address)

initial_host-remote_test :
    initial_nb_sb_host "10.0.0.1" ("10.0.0.1" ∷ "10.0.0.2" ∷ "10.0.0.3" ∷ []) ≡ bracketed "10.0.0.2"
initial_host-remote_test =
    initial_host-remote env.address remote "10.0.0.3" ("10.0.0.1" ∷ []) [] refl remote_differs

cleanup_removes : removed (cleanup_paths env start_world).1 ≡ true
unfolding cleanup_paths make_backup each_error backup remove_dir call on_error attempt now ◌>>=◌
cleanup_removes = refl

cleanup_paths-removal_example : BackedUp env start_world (cleanup_paths env start_world).1
cleanup_paths-removal_example = cleanup_paths-removal env start_world refl cleanup_removes

-- A host where the directory `bird` is gone when it is to be moved.
abbrev bird_gone : Call → Reply
bird_gone (file op (dir ∷ rest)) =
    if op == "rename" && dir == "/var/data/bird" then fail "no such file" else out ""
bird_gone c = out ""

abbrev disk : Env
disk = record env { respond = λ calls c. bird_gone c }

cleanup_paths-fails_example : (cleanup_paths disk start_world).0 ≢ ok tt
unfolding join
cleanup_paths-fails_example =
    cleanup_paths-fails disk (λ cs a b c s p. ("no such file", refl)) start_world

retry-runs_example :
    ((k : ℕ) × (s : String) × (k < 3)
      × AllFail env "ovn-nbctl" [] k []
      × (env.respond (runs k (command "ovn-nbctl" []) []) (command "ovn-nbctl" []) ≡ out s)
      × (retry env 3 "ovn-nbctl" [] (errorf "") start_world
          ≡ (ok s, record start_world { calls = runs (suc k) (command "ovn-nbctl" []) [] })))
    ⊎ (AllFail env "ovn-nbctl" [] 3 []
        × ((e : Error) × (retry env 3 "ovn-nbctl" [] (errorf "") start_world
              ≡ (err e, record start_world { calls = runs 3 (command "ovn-nbctl" []) [] }))))
retry-runs_example = retry-runs env "ovn-nbctl" [] 3 (errorf "") start_world

abbrev bridged : ExtraBgpConfig
bridged = record empty_bgp_config { bridge = "br0"; vrf = "10"; asn = "4200000001" }

validate_iff_example : (validate bridged ≡ ok tt) ↔ IsValidConfig bridged
validate_iff_example = validate_iff bridged

from_map_runs :
    from_map empty_bgp_config (("br", "br0") ∷ ("vrf", "10") ∷ ("asn", "4200000001") ∷ [])
    ≡ ok bridged
unfolding from_map validate parse_external_connection parse_bridge split trim_space is_int
    parse_uint
from_map_runs = refl

from_map-IsValidConfig_test : IsValidConfig bridged
from_map-IsValidConfig_test =
    from_map-IsValidConfig empty_bgp_config bridged
      (("br", "br0") ∷ ("vrf", "10") ∷ ("asn", "4200000001") ∷ []) from_map_runs

parse_asn_range-format_example :
    parse_asn_range (format 4200000000 <> cons "-" (format 4200000100))
    ≡ ok (4200000000, 4200000100)
parse_asn_range-format_example =
    parse_asn_range-format 4200000000 4200000100 (omega arith) (omega arith)

asn_runs : asn_number 4200000000 4200000009 3 ≡ ok 4200000002
unfolding asn_number range_size
asn_runs = refl

asn_number-range_example :
    ((4200000000 ≤ 4200000002) × (4200000002 ≤ 4200000009))
    ↔ (3 % (4200000009 - 4200000000 + 1) ≢ 0)
asn_number-range_example =
    asn_number-range 4200000000 4200000009 (omega arith) (omega arith) (omega arith) 3 4200000002
      asn_runs

abbrev third : ℕ
third = 3

asn_number-distinct_test : third ≡ 3
asn_number-distinct_test =
    asn_number-distinct 4200000000 4200000009 (omega arith) (omega arith) (omega arith) 3 3
      4200000002 (omega arith) (omega arith) (omega arith) (omega arith) asn_runs asn_runs

search_runs : search_id 5 10 (10 ∷ 11 ∷ 253 ∷ []) ≡ some 12
unfolding search_id
search_runs = refl

search_id-least_example :
    (k : ℕ) × (12 ≡ 10 + k)
    × (k < 5)
    × (all_used k 10 (10 ∷ 11 ∷ 253 ∷ []) ≡ true)
    × (is_used (10 ∷ 11 ∷ 253 ∷ []) 12 ≡ false)
search_id-least_example = search_id-least 5 10 12 (10 ∷ 11 ∷ 253 ∷ []) search_runs

search_id-total_test : search_id 5 10 (10 ∷ 11 ∷ 253 ∷ []) ≢ none
search_id-total_test = search_id-total 5 10 (10 ∷ 11 ∷ 253 ∷ []) (omega arith)
