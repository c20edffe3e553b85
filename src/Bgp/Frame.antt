-- ===== src/Bgp/Frame.antt =====
-- The BGP service leaves the cluster database as it is, so it is one that the node's operations can use.
pub mod Tools
mod Redirect
use microovn.Prelude.{
  ℕ, zero, suc, ◌≡◌, refl, String, Bool, true, false, Option, none, some, List, [], ◌∷◌, any, ◌==◌,
}
use microovn.Text.{has_prefix}
use microovn.Types.{ExtraBgpConfig, parse_bridge}
use microovn.Database.{id_of}
use microovn.Commands.{
  OvsdbType, vs_ctl, nb_ctl_cluster, wait_for_cluster_db_state, connect_any, new_ovsdb_spec,
}
use microovn.Netplan.{
  Network, VirtualEthernet, Vrf, Entries, Yaml, cleanup_veths, cleanup_tables, apply,
  write_to_netplan, load_config, cleanup_file, cleanup,
}
use microovn.Node.Bgp.{BgpService}
use microovn.Node.Frame.{
  retry-SameDb, wait_for_db_state-SameDb, central_ips-SameDb, start-SameDb, stop-SameDb,
}
use microovn.Effect.{Env, Error, M, World}
use microovn.Effect.Errors.{also, report}
use microovn.Effect.Keeps.{
  Keeps, Keeps-bind, Keeps-ret, Keeps-if, Keeps-either, Keeps-attempt, Keeps-raise,
}
use microovn.Effect.Quiet.{SameDb, same_db, quiet, call-SameDb}
use microovn.Bgp.Asn.{generate_asn, member_id, or_no_member}
use microovn.Bgp.Vrf.{find_available_vrf_table_id, get_used_vrf_table_ids}
use microovn.Bgp.Names.{
  vsctl_get_if_exists, get_ovn_integration_bridge, check_kernel_module, get_ls_name_chassis_match,
}
use microovn.Bgp.Networks.{
  create_external_bridges, map_bridges, create_bridge_networks, maintain_vrf, create_vrf,
  connect_networks, create_external_networks, bind_interfaces, redirect_ports, generate_veth,
  redirect_bgp,
}
use microovn.Bgp.Teardown.{
  delete_switches, delete_records, teardown_switches, teardown_bridges, teardown_ports,
  restore_mapping, reset_bird, teardown_mapping, teardown_all,
}
use microovn.Bgp.Service.{
  Libraries, write_bird_config, configure_bird_bgp, disable_bgp, give_up, or_give_up, select_vrf,
  make_bridges, select_asn, set_up, start_bird, enable_bgp,
}
use microovn.Bgp.Frame.Tools.{
  also-SameDb, report-SameDb, connect_any-SameDb, cluster_state-SameDb, vs_ctl-SameDb,
  nb_ctl_cluster-SameDb, get-SameDb, integration_bridge-SameDb, module-SameDb, no_member-SameDb,
  asn-SameDb, vrf-SameDb, veths-SameDb, tables-SameDb, apply-SameDb, write-SameDb, load-SameDb,
  cleanup_file-SameDb, cleanup-SameDb,
}
use microovn.Bgp.Frame.Redirect.{
  external_bridges-SameDb, map_bridges-SameDb, bridge_networks-SameDb, maintain-SameDb,
  create_vrf-SameDb, bind-SameDb, ports-SameDb, connect-SameDb, networks-SameDb, redirect-SameDb,
  switches-SameDb, records-SameDb, find_switches-SameDb, find_bridges-SameDb, find_ports-SameDb,
  restore-SameDb, bird-SameDb, mapping-SameDb, teardown-SameDb,
}

module _ (env : Env) where
  -- The service.
  module _ (libs : Libraries) where
    disable-SameDb : Keeps SameDb (disable_bgp env libs)
    unfolding disable_bgp
    disable-SameDb =
        search (quiet, also-SameDb, report-SameDb, stop-SameDb, teardown-SameDb) depth 10

    or_give_up-SameDb :
        {A : Type 0} (f : Error → Error) (m : M A)
        → Keeps SameDb m
        → Keeps SameDb (or_give_up env libs f m)
    unfolding or_give_up give_up
    or_give_up-SameDb f m k = search (quiet, disable-SameDb) depth 10

    configure-SameDb :
        (brgs : List String) (id asn : String)
        → Keeps SameDb (configure_bird_bgp env libs brgs id asn)
    unfolding configure_bird_bgp write_bird_config
    configure-SameDb [] id asn = search quiet depth 8
    configure-SameDb (brg ∷ brgs) id asn = search quiet depth 14

    select_vrf-SameDb : (c : ExtraBgpConfig) → Keeps SameDb (select_vrf env libs c)
    unfolding select_vrf
    select_vrf-SameDb c = search (quiet, or_give_up-SameDb, vrf-SameDb) depth 8

    select_asn-SameDb : (c : ExtraBgpConfig) → Keeps SameDb (select_asn env libs c)
    unfolding select_asn
    select_asn-SameDb c = search (quiet, or_give_up-SameDb, asn-SameDb) depth 8

    bridges-SameDb :
        (c : ExtraBgpConfig) (brgs : List String) → Keeps SameDb (make_bridges env libs c brgs)
    unfolding make_bridges
    bridges-SameDb c [] = search (or_give_up-SameDb, external_bridges-SameDb)
    bridges-SameDb c (brg ∷ brgs) = search (or_give_up-SameDb, bridge_networks-SameDb)

    set_up-SameDb : (c : ExtraBgpConfig) → Keeps SameDb (set_up env libs c)
    unfolding set_up
    set_up-SameDb c =
        search
          (
            quiet, or_give_up-SameDb, select_vrf-SameDb, select_asn-SameDb, bridges-SameDb,
            networks-SameDb, create_vrf-SameDb, redirect-SameDb, configure-SameDb,
          )
          depth 24

    start_bird-SameDb : Keeps SameDb (start_bird env libs)
    unfolding start_bird
    start_bird-SameDb = search (or_give_up-SameDb, start-SameDb)

    enable-SameDb : (o : Option ExtraBgpConfig) → Keeps SameDb (enable_bgp env libs o)
    unfolding enable_bgp
    enable-SameDb none = start_bird-SameDb
    enable-SameDb (some c) = search (quiet, start_bird-SameDb, set_up-SameDb) depth 10

    -- The service of the program, as the interface that the operations of a node take.
    pub bgp_service : BgpService
    bgp_service = record {
      enable = enable_bgp env libs;
      disable = disable_bgp env libs;
      enable-db = λ config. (enable-SameDb config).at;
      disable-db = disable-SameDb.at;
    }
