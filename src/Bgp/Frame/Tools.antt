-- ===== src/Bgp/Frame/Tools.antt =====
-- The tools of microovn/bgp and microovn/netplan leave the cluster database as it is.
use microovn.Prelude.{ℕ, String, Bool, Option, none, some, List, [], ◌∷◌, any, ◌==◌}
use microovn.Commands.{vs_ctl, nb_ctl_cluster, wait_for_cluster_db_state, connect_any}
use microovn.Netplan.{
  Network, VirtualEthernet, Vrf, Entries, Yaml, cleanup_veths, cleanup_tables, apply,
  write_to_netplan, load_config, cleanup_file, cleanup,
}
use microovn.Node.Frame.{retry-SameDb, wait_for_db_state-SameDb, central_ips-SameDb}
use microovn.Effect.{Env, Error, M}
use microovn.Effect.Errors.{also, report}
use microovn.Effect.Keeps.{Keeps, Keeps-bind, Keeps-if}
use microovn.Effect.Quiet.{SameDb, same_db, quiet}
use microovn.Bgp.Asn.{generate_asn, member_id, or_no_member}
use microovn.Bgp.Vrf.{find_available_vrf_table_id, get_used_vrf_table_ids}
use microovn.Bgp.Names.{vsctl_get_if_exists, get_ovn_integration_bridge, check_kernel_module}

pub also-SameDb :
    {A : Type 0} (errs : List Error) (f : Error → Error) (m : M A)
    → Keeps SameDb m
    → Keeps SameDb (also errs f m)
unfolding also
also-SameDb errs f m k = search quiet depth 8

pub report-SameDb : (errs : List Error) → Keeps SameDb (report errs)
unfolding report
report-SameDb [] = search quiet
report-SameDb (e ∷ errs) = search quiet

module _ (env : Env) where
  -- Commands.
  pub connect_any-SameDb :
      (db state : String) (port : ℕ) (ips : List String)
      → Keeps SameDb (connect_any env db state port ips)
  unfolding connect_any
  connect_any-SameDb db state port [] = search quiet
  connect_any-SameDb db state port (ip ∷ ips) =
      Keeps-bind same_db _ _ (search quiet)
        λ r. search (quiet, connect_any-SameDb db state port ips)

  pub cluster_state-SameDb :
      (db state : String) (port : ℕ) → Keeps SameDb (wait_for_cluster_db_state env db state port)
  unfolding wait_for_cluster_db_state
  cluster_state-SameDb db state port =
      search (quiet, central_ips-SameDb, connect_any-SameDb) depth 10

  pub vs_ctl-SameDb : (args : List String) → Keeps SameDb (vs_ctl env args)
  unfolding vs_ctl
  vs_ctl-SameDb args = search (quiet, wait_for_db_state-SameDb, retry-SameDb) depth 8

  pub nb_ctl_cluster-SameDb : (args : List String) → Keeps SameDb (nb_ctl_cluster env args)
  unfolding nb_ctl_cluster
  nb_ctl_cluster-SameDb args = search (quiet, cluster_state-SameDb, retry-SameDb) depth 8

  pub get-SameDb :
      (table row column key : String) → Keeps SameDb (vsctl_get_if_exists env table row column key)
  unfolding vsctl_get_if_exists
  get-SameDb table row column key = search (quiet, vs_ctl-SameDb) depth 10

  pub integration_bridge-SameDb : Keeps SameDb (get_ovn_integration_bridge env)
  unfolding get_ovn_integration_bridge
  integration_bridge-SameDb = search (quiet, get-SameDb) depth 8

  pub module-SameDb : (name : String) → Keeps SameDb (check_kernel_module env name)
  unfolding check_kernel_module
  module-SameDb name = search quiet depth 8

  -- Numbers.
  pub no_member-SameDb : (o : Option ℕ) → Keeps SameDb (or_no_member env o)
  unfolding or_no_member
  no_member-SameDb none = search quiet
  no_member-SameDb (some n) = search quiet

  pub asn-SameDb : (min max : ℕ) → Keeps SameDb (generate_asn env min max)
  unfolding generate_asn member_id
  asn-SameDb min max = search (quiet, no_member-SameDb) depth 20

  pub vrf-SameDb : Keeps SameDb (find_available_vrf_table_id env)
  unfolding find_available_vrf_table_id get_used_vrf_table_ids
  vrf-SameDb = search quiet depth 12

  -- Netplan.
  pub veths-SameDb :
      (gone : List String) (m : Entries VirtualEthernet) → Keeps SameDb (cleanup_veths env gone m)
  unfolding cleanup_veths
  veths-SameDb gone [] = search quiet
  veths-SameDb gone ((iface, veth) ∷ m) =
      let rest = λ (g : List String). veths-SameDb g m in
      Keeps-if same_db (any (λ d. d == iface) gone) _ _ (λ p. rest gone)
        λ p. Keeps-bind same_db _ _ (search quiet) λ r. search (quiet, rest)

  pub tables-SameDb : (delete : Bool) (m : Entries Vrf) → Keeps SameDb (cleanup_tables env delete m)
  unfolding cleanup_tables
  tables-SameDb delete [] = search quiet
  tables-SameDb delete ((name, vrf) ∷ m) =
      Keeps-bind same_db _ _ (search quiet)
        λ u. Keeps-bind same_db _ _ (search quiet depth 8) λ v. tables-SameDb delete m

  pub apply-SameDb : Keeps SameDb (apply env)
  unfolding apply
  apply-SameDb = search quiet depth 8

  module _ (yaml : Yaml) where
    pub write-SameDb :
        (name : String) (c : Network) → Keeps SameDb (write_to_netplan env yaml name c)
    unfolding write_to_netplan
    write-SameDb name c = search quiet depth 12

    pub load-SameDb : (name : String) → Keeps SameDb (load_config env yaml name)
    unfolding load_config
    load-SameDb name = search quiet depth 8

    pub cleanup_file-SameDb : (path tmp : String) → Keeps SameDb (cleanup_file env yaml path tmp)
    unfolding cleanup_file
    cleanup_file-SameDb path tmp =
        search (quiet, load-SameDb, veths-SameDb, tables-SameDb, apply-SameDb) depth 24

    pub cleanup-SameDb : (name : String) → Keeps SameDb (cleanup env yaml name)
    unfolding cleanup
    cleanup-SameDb name = search (quiet, cleanup_file-SameDb) depth 10
