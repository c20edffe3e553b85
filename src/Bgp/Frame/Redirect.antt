-- ===== src/Bgp/Frame/Redirect.antt =====
-- Setting the BGP redirect up and taking it down leaves the cluster database as it is.
use microovn.Prelude.{ℕ, String, List, [], ◌∷◌}
use microovn.Text.{has_prefix}
use microovn.Netplan.{Yaml}
use microovn.Effect.{Env, Error}
use microovn.Effect.Keeps.{Keeps, Keeps-bind, Keeps-ret, Keeps-if}
use microovn.Effect.Quiet.{SameDb, same_db, quiet}
use microovn.Bgp.Names.{get_ls_name_chassis_match}
use microovn.Bgp.Networks.{
  create_external_bridges, map_bridges, create_bridge_networks, maintain_vrf, create_vrf,
  connect_networks, create_external_networks, bind_interfaces, redirect_ports, generate_veth,
  redirect_bgp,
}
use microovn.Bgp.Teardown.{
  delete_switches, delete_records, teardown_switches, teardown_bridges, teardown_ports,
  restore_mapping, reset_bird, teardown_mapping, teardown_all,
}
use microovn.Bgp.Frame.Tools.{
  also-SameDb, report-SameDb, vs_ctl-SameDb, nb_ctl_cluster-SameDb, get-SameDb,
  integration_bridge-SameDb, module-SameDb, apply-SameDb, write-SameDb, cleanup-SameDb,
}

module _ (env : Env) where
  -- The redirect.
  pub external_bridges-SameDb :
      (ifaces : List String) → Keeps SameDb (create_external_bridges env ifaces)
  unfolding create_external_bridges
  external_bridges-SameDb [] = search quiet
  external_bridges-SameDb (iface ∷ ifaces) =
      Keeps-bind same_db _ _ (search (quiet, get-SameDb)) λ m.
        Keeps-bind same_db _ _ (vs_ctl-SameDb env _)
          λ u. Keeps-bind same_db _ _ (external_bridges-SameDb ifaces) λ rest. Keeps-ret same_db _

  pub map_bridges-SameDb : (brgs : List String) (m : String) → Keeps SameDb (map_bridges env m brgs)
  unfolding map_bridges
  map_bridges-SameDb [] m = search quiet
  map_bridges-SameDb (brg ∷ brgs) m =
      Keeps-bind same_db _ _ (vs_ctl-SameDb env _) λ u. map_bridges-SameDb brgs _

  pub bridge_networks-SameDb : (brgs : List String) → Keeps SameDb (create_bridge_networks env brgs)
  unfolding create_bridge_networks
  bridge_networks-SameDb brgs = search (quiet, get-SameDb, map_bridges-SameDb) depth 8

  pub maintain-SameDb : (brgs : List String) → Keeps SameDb (maintain_vrf env brgs)
  unfolding maintain_vrf
  maintain-SameDb [] = search quiet
  maintain-SameDb (brg ∷ brgs) =
      Keeps-bind same_db _ _ (search (quiet, nb_ctl_cluster-SameDb)) λ u. maintain-SameDb brgs

  pub create_vrf-SameDb : (brgs : List String) (id : String) → Keeps SameDb (create_vrf env brgs id)
  unfolding create_vrf
  create_vrf-SameDb brgs id =
      search (quiet, module-SameDb, nb_ctl_cluster-SameDb, maintain-SameDb) depth 10

  pub bind-SameDb :
      (vrf : String) (ifaces : List String) → Keeps SameDb (bind_interfaces env vrf ifaces)
  unfolding bind_interfaces
  bind-SameDb vrf [] = search quiet
  bind-SameDb vrf (iface ∷ ifaces) =
      Keeps-bind same_db _ _ (search quiet)
        λ u. Keeps-bind same_db _ _ (search quiet) λ v. bind-SameDb vrf ifaces

  pub ports-SameDb :
      (vrf : String) (brgs : List String) → Keeps SameDb (redirect_ports env vrf brgs)
  unfolding redirect_ports
  ports-SameDb vrf [] = search quiet
  ports-SameDb vrf (brg ∷ brgs) =
      Keeps-bind same_db _ _ (search (quiet, nb_ctl_cluster-SameDb))
        λ u. Keeps-bind same_db _ _ (search (quiet, vs_ctl-SameDb)) λ v. ports-SameDb vrf brgs

  module _ (md5 : String → List ℕ) where
    pub connect-SameDb : (brgs : List String) → Keeps SameDb (connect_networks env md5 brgs)
    unfolding connect_networks
    connect-SameDb [] = search quiet
    connect-SameDb (brg ∷ brgs) =
        Keeps-bind same_db _ _ (nb_ctl_cluster-SameDb env _) λ u. connect-SameDb brgs

    pub networks-SameDb :
        (brgs : List String) → Keeps SameDb (create_external_networks env md5 brgs)
    unfolding create_external_networks
    networks-SameDb brgs = search (quiet, nb_ctl_cluster-SameDb, connect-SameDb) depth 8

    pub redirect-SameDb :
        (yaml : Yaml) (brgs : List String) (id : String)
        → Keeps SameDb (redirect_bgp env md5 yaml brgs id)
    unfolding redirect_bgp generate_veth
    redirect-SameDb yaml brgs id =
        search
          (quiet, integration_bridge-SameDb, write-SameDb, apply-SameDb, bind-SameDb, ports-SameDb)
          depth 16

  -- The teardown.
  pub switches-SameDb :
      (errs : List Error) (ss : List String) → Keeps SameDb (delete_switches env errs ss)
  unfolding delete_switches
  switches-SameDb errs [] = search quiet
  switches-SameDb errs (s ∷ ss) =
      Keeps-if same_db (has_prefix s (get_ls_name_chassis_match env)) _ _
        (λ p.
          Keeps-bind same_db _ _ (also-SameDb errs _ _ (nb_ctl_cluster-SameDb env _))
            λ more. switches-SameDb more ss)
        λ p. switches-SameDb errs ss

  pub records-SameDb :
      (del kind : String) (errs : List Error) (names : List String)
      → Keeps SameDb (delete_records env del kind errs names)
  unfolding delete_records
  records-SameDb del kind errs [] = search quiet
  records-SameDb del kind errs (name ∷ names) =
      Keeps-bind same_db _ _ (also-SameDb errs _ _ (vs_ctl-SameDb env _))
        λ more. records-SameDb del kind more names

  pub find_switches-SameDb : (errs : List Error) → Keeps SameDb (teardown_switches env errs)
  unfolding teardown_switches
  find_switches-SameDb errs = search (quiet, nb_ctl_cluster-SameDb, switches-SameDb) depth 8

  pub find_bridges-SameDb : (errs : List Error) → Keeps SameDb (teardown_bridges env errs)
  unfolding teardown_bridges
  find_bridges-SameDb errs = search (quiet, vs_ctl-SameDb, records-SameDb) depth 8

  pub find_ports-SameDb : (errs : List Error) → Keeps SameDb (teardown_ports env errs)
  unfolding teardown_ports
  find_ports-SameDb errs = search (quiet, vs_ctl-SameDb, records-SameDb) depth 8

  pub restore-SameDb : (errs : List Error) (m : String) → Keeps SameDb (restore_mapping env errs m)
  unfolding restore_mapping
  restore-SameDb errs m = search (quiet, get-SameDb, vs_ctl-SameDb, also-SameDb) depth 10

  pub bird-SameDb : (errs : List Error) → Keeps SameDb (reset_bird env errs)
  unfolding reset_bird
  bird-SameDb errs = search (quiet, also-SameDb) depth 10

  pub mapping-SameDb : (errs : List Error) → Keeps SameDb (teardown_mapping env errs)
  unfolding teardown_mapping
  mapping-SameDb errs =
      search (quiet, get-SameDb, vs_ctl-SameDb, also-SameDb, restore-SameDb, bird-SameDb) depth 14

  pub teardown-SameDb : (yaml : Yaml) → Keeps SameDb (teardown_all env yaml)
  unfolding teardown_all
  teardown-SameDb yaml =
      search
        (
          quiet, also-SameDb, report-SameDb, nb_ctl_cluster-SameDb, cleanup-SameDb,
          find_switches-SameDb, find_bridges-SameDb, find_ports-SameDb, mapping-SameDb,
        )
        depth 20
