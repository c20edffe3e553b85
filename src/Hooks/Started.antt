-- ===== src/Hooks/Started.antt =====
-- What the parts of the hook of microovn/ovn/join.go do to the cluster database.
use microovn.Prelude.{String, false, none, List, [], ◌∷◌, ◌++◌, ◌==◌, if◌then◌else◌, ◌≡◌}
use microovn.Types.{srv_central, srv_chassis, srv_switch}
use microovn.Config.Map.{get_config-SameDb}
use microovn.Certificates.{dump_ca}
use microovn.Dpu.{get_dpu_serial, set_ovn_dpu_serial, detect_dpu, dpu_setup}
use microovn.Environment.{is_external_central_configured}
use microovn.Node.Bgp.{BgpService}
use microovn.Node.Frame.{
  get_config_item-SameDb, get_services-SameDb, has_service_active-SameDb,
  generate_environment-SameDb,
}
use microovn.Bgp.Frame.Tools.{vs_ctl-SameDb}
use microovn.ApiBgp.{
  enable_on_bridges, enable_bgp_from_ovs, enable_bgp_from_cluster_config, check_bgp_interface,
  interface_exists, find_bridges,
}
use microovn.ApiBgp.Tagged.{read_bridge-SameDb}
use microovn.Hooks.Requested.{RequestedServices}
use microovn.Hooks.Options.{Options, read_services, read_join_options, start_central, start_chassis}
use microovn.Hooks.Bootstrap.{HookLibraries}
use microovn.Hooks.Refresh.{remote-SameDb}
use microovn.Hooks.Growth.{
  Grows, Grows-quiet, Grows-on_error, Grows-bind, Grows-if, Grows-branch, Grows-enable, Grows-other,
}
use microovn.Hooks.Join.{count_central, start_joined}
use microovn.Effect.{Env, ret}
use microovn.Effect.Keeps.{Keeps}
use microovn.Effect.Quiet.{SameDb, quiet}

-- The names of the services, in the order in which they are started.
abbrev pub started : RequestedServices → List String
started r =
    (if r.switch then srv_switch ∷ [] else [])
    ++ ((if r.central then srv_central ∷ [] else [])
        ++ ((if r.chassis then srv_chassis ∷ [] else []) ++ []))

module _ (env : Env) where
  pub dump_ca-SameDb : Keeps SameDb (dump_ca env)
  unfolding dump_ca
  dump_ca-SameDb = search (quiet, get_config_item-SameDb) depth 20

  pub count-SameDb : Keeps SameDb (count_central env)
  unfolding count_central
  count-SameDb = search (quiet, get_services-SameDb) depth 8

  pub external-SameDb : Keeps SameDb (is_external_central_configured env)
  unfolding is_external_central_configured
  external-SameDb = search (quiet, get_config-SameDb) depth 8

  pub check-SameDb : Keeps SameDb (check_bgp_interface env)
  unfolding check_bgp_interface interface_exists
  check-SameDb = search (quiet, get_config-SameDb) depth 24

  pub read_services-SameDb : (o : Options) (v : String) → Keeps SameDb (read_services env o v)
  unfolding read_services
  read_services-SameDb o v = search quiet depth 8

  pub read_options-SameDb :
      (o : Options) (init : List (String × String)) → Keeps SameDb (read_join_options env o init)
  unfolding read_join_options
  read_options-SameDb o [] = search quiet
  read_options-SameDb o ((k, v) ∷ rest) =
      search (quiet, read_services-SameDb, λ (p : Options). read_options-SameDb p rest) depth 10

  module _ (libs : HookLibraries) where
    pub dpu-SameDb : Keeps SameDb (dpu_setup env libs.devlink)
    unfolding dpu_setup detect_dpu get_dpu_serial set_ovn_dpu_serial
    dpu-SameDb = search (quiet, vs_ctl-SameDb) depth 24

  module _ (bgp : BgpService) where
    pub find_bridges-SameDb : (k v : String) → Keeps SameDb (find_bridges env bgp k v)
    unfolding find_bridges
    find_bridges-SameDb k v = search (quiet, vs_ctl-SameDb) depth 8

-- What each part of the end of `Join` adds, as far as a service `t` tells that is not BGP.
module _ (env : Env) (bgp : BgpService) (n t : String) (not_bgp : "bgp" == t ≡ false) where
  bridges-Grows : (bs : List String) → Grows env n t [] (enable_on_bridges env bgp bs)
  unfolding enable_on_bridges
  bridges-Grows [] = Grows-quiet env n t _ (search quiet)
  bridges-Grows (b ∷ bs) =
      Grows-bind env n t _ _ (Grows-quiet env n t _ (read_bridge-SameDb env bgp b)) λ c.
        Grows-bind env n t _ _
          (Grows-on_error env n t _ _ (Grows-other env n t bgp "bgp" _ not_bgp))
          λ u. bridges-Grows bs

  pub from_ovs-Grows : Grows env n t [] (enable_bgp_from_ovs env bgp)
  unfolding enable_bgp_from_ovs
  from_ovs-Grows =
      Grows-bind env n t _ _ (Grows-quiet env n t _ (search (quiet, has_service_active-SameDb)))
        λ b. Grows-branch env n t _ _ _ (Grows-quiet env n t (ret tt) (search quiet)) (
          Grows-bind env n t _ _ (Grows-quiet env n t _ (search (quiet, find_bridges-SameDb)))
            bridges-Grows)

  from_config-Grows : Grows env n t [] (enable_bgp_from_cluster_config env bgp)
  unfolding enable_bgp_from_cluster_config
  from_config-Grows =
      Grows-bind env n t _ _ (Grows-quiet env n t _ (search (quiet, get_config-SameDb))) λ a.
        Grows-bind env n t _ _ (Grows-quiet env n t _ (search (quiet, get_config-SameDb))) λ b.
          Grows-bind env n t _ _ (Grows-quiet env n t _ (search (quiet, get_config-SameDb) depth 8))
            λ c.
              Grows-bind env n t _ _
                (Grows-quiet env n t _ (search (quiet, get_config-SameDb) depth 8))
                λ d.
                  Grows-bind env n t _ _ (Grows-quiet env n t _ (search quiet))
                    λ e. Grows-other env n t bgp "bgp" _ not_bgp

  pub central-Grows : Grows env n t (srv_central ∷ []) (start_central env bgp)
  unfolding start_central
  central-Grows =
      Grows-bind env n t _ _ (Grows-enable env n t bgp srv_central none)
        λ u. Grows-quiet env n t _ (search (quiet, generate_environment-SameDb))

  pub chassis-Grows : (ip : String) → Grows env n t (srv_chassis ∷ []) (start_chassis env bgp ip)
  unfolding start_chassis
  chassis-Grows ip =
      Grows-bind env n t _ _ (Grows-enable env n t bgp srv_chassis none)
        λ u. Grows-quiet env n t _ (search (quiet, vs_ctl-SameDb, remote-SameDb) depth 8)

  pub start_joined-Grows :
      (libs : HookLibraries) (o : Options) (bgp_cluster : String)
      → Grows env n t (started o.services) (start_joined env bgp libs o bgp_cluster)
  unfolding start_joined
  start_joined-Grows libs o bgp_cluster =
      Grows-bind env n t _ _
        (Grows-if env n t o.services.switch _ (Grows-enable env n t bgp srv_switch none))
        λ u. Grows-bind env n t _ _ (Grows-if env n t o.services.central _ central-Grows) λ v.
          Grows-bind env n t _ _ (Grows-if env n t o.services.chassis _ (chassis-Grows o.encap_ip))
            λ x. Grows-bind env n t _ _ (Grows-quiet env n t _ (dpu-SameDb env libs)) λ y.
              Grows-bind env n t _ _ (Grows-on_error env n t _ _ from_ovs-Grows) λ z.
                Grows-branch env n t _ _ _ (Grows-on_error env n t _ _ from_config-Grows)
                  (Grows-quiet env n t (ret tt) (search quiet))
