-- ===== src/Examples/Redirect.antt =====
-- The theorems on the BGP redirect, on a CA of the user, and on the commands of the client at work.
use microovn.Config.{get_config}
use microovn.Environment.{central_ips, remote_addresses_from_config}
use microovn.Snap.{start, stop}
use microovn.Database.Config.{
  config_item_exists, create_config_item, get_config_item, get_config_item_id, get_config_items,
  select_config, update_config_item,
}
use microovn.Certificates.{store_ca, upsert, upsert_ca}
use microovn.Prelude.{
  String, true, false, not, some, List, [], ◌∷◌, ◌==◌, all, ◌≡◌, ◌≢◌, ◌↔◌, ◌⊎◌, refl, if◌then◌else◌,
}
use microovn.Text.{◌<>◌, split, join, includes, trim_space}
use microovn.Text.Split.{lacks}
use microovn.Types.{
  ExtraBgpConfig, empty_bgp_config, validate, parse_bridge, parse_external_connection,
}
use microovn.Netplan.{new_config, cleanup, cleanup_file}
use microovn.Effect.{
  Env, World, Error, Call, Reply, Result, panic, command, issue, out, ok, err, errorf, call,
  attempt, transaction, on_error, ◌>>=◌,
}
use microovn.Effect.Errors.{also, report}
use microovn.Commands.{
  vs_ctl, nb_ctl_cluster, new_ovsdb_spec, retry, wait_for_cluster_db_state, wait_for_db_state,
}
use microovn.Config.Map.{option}
use microovn.Certificates.Ca.{is_ca, with_ca}
use microovn.Certificates.Custom.{
  X509, Accepted, set_new_ca_certificate, set_new_ca_certificate-option, check_chain,
}
use microovn.Bgp.Names.{bgp_bridge_mapping, get_external_id, vsctl_get_if_exists}
use microovn.Bgp.Teardown.{
  delete_switches, remaining_mapping, restore_mapping, teardown_all, teardown_bridges,
  teardown_mapping, teardown_ports, teardown_switches,
}
use microovn.Bgp.Mapping.{others, remaining_mapping-others, restore_mapping-removes}
use microovn.Bgp.Deletions.{deleted}
use microovn.Bgp.Switches.{switch_of, delete_switches-others}
use microovn.Bgp.Service.{Libraries, enable_bgp, disable_bgp, give_up, or_give_up, start_bird}
use microovn.Bgp.Failure.{enable_bgp-fails}
use microovn.ApiBgp.{enable_on_bridges}
use microovn.ApiBgp.Tagged.{enable_on_bridges-fails}
use microovn.Cli.Status.{SchemaVersionResult, no_error, agrees, requires_attention}
use microovn.Cli.Status.Attention.{requires_attention-agrees}
use microovn.Cli.Init.{validate_services}
use microovn.Cli.Init.Services.{Requested, validate_services_iff}
use microovn.Examples.{env, broken, bgp, start_world, db_unique}

abbrev nodes : List SchemaVersionResult
nodes = record { host = "10.0.0.2"; schema_version = "7.3.0"; error = no_error } ∷ []

abbrev local : SchemaVersionResult
local = record { host = "10.0.0.1"; schema_version = "7.3.1"; error = no_error }

requires_attention-agrees_example :
    requires_attention "7.3.1" (local ∷ nodes) ≡ ok (not (all (agrees "7.3.1") (local ∷ nodes)))
requires_attention-agrees_example = requires_attention-agrees "7.3.1" local nodes

abbrev two_roles : String
two_roles = "central,switch"

validate_services_iff_example :
    (validate_services two_roles ≡ ok tt) ↔ ((two_roles ≡ "auto") ⊎ Requested two_roles)
validate_services_iff_example = validate_services_iff two_roles

abbrev user_mapping : String
user_mapping = "physnet1:br-ex"

abbrev own_mapping : String
own_mapping = "physnet_a_br-eth0:br-eth0"

no_empty_entry : all (λ e. not (e == "")) (split b',' (user_mapping <> "," <> own_mapping)) ≡ true
unfolding split
no_empty_entry = refl

remaining_mapping-others_example :
    remaining_mapping (user_mapping <> "," <> own_mapping) own_mapping
    ≡ join "," (others (split b',' own_mapping) (split b',' (user_mapping <> "," <> own_mapping)))
remaining_mapping-others_example =
    remaining_mapping-others (user_mapping <> "," <> own_mapping) own_mapping no_empty_entry

-- A host whose two external ids hold the same text.
abbrev mapped_reply : Call → Reply
mapped_reply (command cmd args) =
    if cmd == "ovs-vsctl" then out (user_mapping <> "," <> own_mapping) else out ""
mapped_reply c = out ""

abbrev mapped : Env
mapped = record env { respond = λ calls c. mapped_reply c }

abbrev looked_up : World
looked_up = (get_external_id mapped bgp_bridge_mapping start_world).1

mapping_found :
    get_external_id mapped bgp_bridge_mapping start_world
    ≡ (ok (user_mapping <> "," <> own_mapping), looked_up)
unfolding vsctl_get_if_exists ◌>>=◌ vs_ctl new_ovsdb_spec wait_for_db_state on_error call retry
mapping_found = refl

restore_mapping-removes_example :
    restore_mapping mapped [] (user_mapping <> "," <> own_mapping) start_world
    ≡ also []
        (λ e. errorf (
          "failed to remove MicroOVN managed bridge mappings from ovn-bridge-mappings: "
          <> e.message))
        (vs_ctl mapped
          ("remove" ∷ "Open_vSwitch" ∷ "." ∷ "external-ids" ∷ "ovn-bridge-mappings" ∷ []))
        looked_up
restore_mapping-removes_example =
    restore_mapping-removes mapped [] (user_mapping <> "," <> own_mapping) start_world looked_up
      mapping_found refl

abbrev other_switch : String × String
other_switch = ("b", "br-eth0")

abbrev found : List String
found = "ls-a-br-eth0" ∷ "ls-b-br-eth0" ∷ []

delete_switches-others_example :
    deleted (switch_of other_switch) (delete_switches env [] found start_world).1 ≡ false
unfolding lacks
delete_switches-others_example =
    delete_switches-others env other_switch refl refl [] found start_world

enable_on_bridges-fails_example :
    (enable_on_bridges env bgp ("br0" ∷ "br1" ∷ []) start_world).0 ≢ ok tt
enable_on_bridges-fails_example =
    enable_on_bridges-fails env bgp start_world "br0" "br1" [] db_unique

-- A pair with one certificate, which is a CA.
abbrev x509 : X509
x509 = record { chain = λ pair. "der" ∷ []; is_ca = λ cert. true; key_usage = λ cert. 96 }

set_runs : (set_new_ca_certificate env x509 "new" "key" start_world).0 ≡ ok true
unfolding set_new_ca_certificate ◌>>=◌ on_error call check_chain store_ca transaction upsert_ca
    upsert get_config_item get_config_items select_config update_config_item get_config_item_id
    create_config_item config_item_exists
set_runs = refl

set_new_ca_certificate-option_example :
    ((pair : String) × (env.respond start_world.calls (issue "tls.X509KeyPair" ("new" ∷ "key" ∷ []))
        ≡ out pair)
      × Accepted env x509 (x509.chain pair))
    × (option (set_new_ca_certificate env x509 "new" "key" start_world).1 "ca_key"
        ≡ with_ca "new" "key" false start_world "ca_key")
    × (true ≡ not (is_ca "new" "key" false start_world))
set_new_ca_certificate-option_example =
    set_new_ca_certificate-option env x509 "new" "key" start_world true "ca_key" set_runs

abbrev libs : Libraries
libs = record {
  md5 = λ s. 1 ∷ 2 ∷ 3 ∷ 4 ∷ 5 ∷ [];
  yaml = record { marshal = λ c. ok ""; decode = λ s. ok new_config };
}

abbrev one_bridge : ExtraBgpConfig
one_bridge = record empty_bgp_config { bridge = "br0" }

abbrev error_of : {A : Type 0} → Result A → Error
error_of (ok a) = errorf ""
error_of (err e) = e
error_of panic = errorf ""

enable_fails :
    (enable_bgp broken libs (some one_bridge) start_world).0
    ≡ err (error_of (enable_bgp broken libs (some one_bridge) start_world).0)
unfolding enable_bgp ◌>>=◌ on_error validate parse_external_connection split trim_space parse_bridge
    start_bird or_give_up give_up start call attempt disable_bgp also stop teardown_all
    nb_ctl_cluster wait_for_cluster_db_state central_ips remote_addresses_from_config get_config
    transaction cleanup cleanup_file teardown_switches teardown_bridges teardown_ports
    teardown_mapping vsctl_get_if_exists vs_ctl new_ovsdb_spec wait_for_db_state report includes
    join
enable_fails = refl

enable_bgp-fails_example :
    ((validate one_bridge ≢ ok tt)
      × ((enable_bgp broken libs (some one_bridge) start_world).1 ≡ start_world))
    ⊎ ((v : World) × ((enable_bgp broken libs (some one_bridge) start_world).1
          ≡ (disable_bgp broken libs v).1))
enable_bgp-fails_example =
    enable_bgp-fails broken libs one_bridge start_world
      (error_of (enable_bgp broken libs (some one_bridge) start_world).0) enable_fails
