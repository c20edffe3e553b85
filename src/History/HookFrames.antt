-- ===== src/History/HookFrames.antt =====
-- The hooks leave the services of other members alone.
use microovn.Prelude.{String, Bool, some, List, [], ◌∷◌}
use microovn.Database.{Service}
use microovn.History.Guarded.{Guarded, guarded, guarding, quiet-Guarded, enable_service-Guarded}
use microovn.Hooks.Bootstrapped.{create_item-SameServices, update_item-SameServices}
use microovn.History.Actions.{new_ca-Guarded, set_ca-Guarded, disable_all-Guarded}
use microovn.Config.Map.{get_config-SameDb}
use microovn.Environment.{cleanup_paths, make_backup, each_error, backup, remove_dir}
use microovn.Node.{activate_enabled_services, activate_all}
use microovn.Node.Bgp.{BgpService}
use microovn.Node.Frame.{
  has_service_active-SameDb, generate_environment-SameDb, certificate-SameDb, get_services-SameDb,
  activate_service-SameDb, listen-SameDb,
}
use microovn.Bgp.Frame.Tools.{vs_ctl-SameDb}
use microovn.ApiBgp.{enable_on_bridges, enable_bgp_from_ovs, enable_bgp_from_cluster_config}
use microovn.ApiBgp.Tagged.{read_bridge-SameDb}
use microovn.Hooks.{leave, refresh}
use microovn.Hooks.Refresh.{create_paths-SameDb, remote-SameDb, refresh-SameDb}
use microovn.Hooks.Options.{Options, start_central, start_chassis}
use microovn.Hooks.Bootstrap.{HookLibraries, choose_ca, bootstrap}
use microovn.Hooks.Bootstrapped
use microovn.Hooks.Join.{start_joined, join_cluster}
use microovn.Hooks.Started.{
  dump_ca-SameDb, count-SameDb, external-SameDb, check-SameDb, read_options-SameDb, dpu-SameDb,
  find_bridges-SameDb,
}
use microovn.Hooks.Start.{start_member, start_daemon}
use microovn.Effect.{Env, M}
use microovn.Effect.Keeps.{Keeps, Keeps-bind, Keeps-attempt, Keeps-on_error}
use microovn.Effect.Quiet.{SameDb, same_db, quiet}

module _ (env : Env) where
  each_error-SameDb :
      (f : String → M (Unit {0})) (xs : List String)
      → ((x : String) → Keeps SameDb (f x))
      → Keeps SameDb (each_error env f xs)
  unfolding each_error
  each_error-SameDb f [] k = search quiet
  each_error-SameDb f (x ∷ xs) k =
      Keeps-bind same_db _ _ (Keeps-attempt same_db _ (k x))
        λ r. Keeps-bind same_db _ _ (each_error-SameDb f xs k) λ rest. search quiet

  cleanup_paths-SameDb : Keeps SameDb (cleanup_paths env)
  unfolding cleanup_paths make_backup backup remove_dir
  cleanup_paths-SameDb = search (quiet, each_error-SameDb) depth 14

  activate_all-SameDb : (b : Bool) (ss : List Service) → Keeps SameDb (activate_all env b ss)
  unfolding activate_all
  activate_all-SameDb b [] = search quiet
  activate_all-SameDb b (s ∷ ss) =
      Keeps-bind same_db _ _ (activate_service-SameDb env s.service b) λ u. activate_all-SameDb b ss

  activate_enabled-SameDb : (enable : Bool) → Keeps SameDb (activate_enabled_services env enable)
  unfolding activate_enabled_services
  activate_enabled-SameDb enable = search (quiet, get_services-SameDb, activate_all-SameDb) depth 8

  pub start-Guarded : {strict : Bool} → Keeps (Guarded env.name strict) (start_daemon env)
  unfolding start_daemon start_member
  start-Guarded =
      search
        (
          guarding, create_paths-SameDb, activate_enabled-SameDb, generate_environment-SameDb,
          has_service_active-SameDb, listen-SameDb, remote-SameDb,
        )
        depth 24

  pub refresh-Guarded : {strict : Bool} → Keeps (Guarded env.name strict) (refresh env)
  refresh-Guarded = quiet-Guarded _ (refresh-SameDb env)

module _ (env : Env) (bgp : BgpService) where
  pub leave-Guarded : {strict : Bool} → Keeps (Guarded env.name strict) (leave env bgp)
  unfolding leave
  leave-Guarded = search (guarding, disable_all-Guarded, cleanup_paths-SameDb) depth 8

  bridges-Guarded :
      {strict : Bool} (bs : List String)
      → Keeps (Guarded env.name strict) (enable_on_bridges env bgp bs)
  unfolding enable_on_bridges
  bridges-Guarded [] = search guarding
  bridges-Guarded (b ∷ bs) =
      Keeps-bind guarded _ _ (quiet-Guarded _ (read_bridge-SameDb env bgp b)) λ c.
        Keeps-bind guarded _ _
          (Keeps-on_error guarded _ _ (enable_service-Guarded env bgp "bgp" (some c)))
          λ u. bridges-Guarded bs

  from_ovs-Guarded : {strict : Bool} → Keeps (Guarded env.name strict) (enable_bgp_from_ovs env bgp)
  unfolding enable_bgp_from_ovs
  from_ovs-Guarded =
      search (guarding, has_service_active-SameDb, find_bridges-SameDb, bridges-Guarded) depth 10

  pub from_config-Guarded :
      {strict : Bool} → Keeps (Guarded env.name strict) (enable_bgp_from_cluster_config env bgp)
  unfolding enable_bgp_from_cluster_config
  from_config-Guarded = search (guarding, get_config-SameDb, enable_service-Guarded) depth 20

  central-Guarded : {strict : Bool} → Keeps (Guarded env.name strict) (start_central env bgp)
  unfolding start_central
  central-Guarded = search (guarding, enable_service-Guarded, generate_environment-SameDb) depth 8

  chassis-Guarded :
      {strict : Bool} (ip : String) → Keeps (Guarded env.name strict) (start_chassis env bgp ip)
  unfolding start_chassis
  chassis-Guarded ip =
      search (guarding, enable_service-Guarded, vs_ctl-SameDb, remote-SameDb) depth 8

  module _ (libs : HookLibraries) where
    start_joined-Guarded :
        {strict : Bool} (o : Options) (s : String)
        → Keeps (Guarded env.name strict) (start_joined env bgp libs o s)
    unfolding start_joined
    start_joined-Guarded o s =
        search
          (
            guarding, enable_service-Guarded, central-Guarded, chassis-Guarded, dpu-SameDb,
            from_ovs-Guarded, from_config-Guarded,
          )
          depth 24

    pub join-Guarded :
        {strict : Bool} (init : List (String × String))
        → Keeps (Guarded env.name strict) (join_cluster env bgp libs init)
    unfolding join_cluster
    join-Guarded init =
        search
          (
            guarding, create_paths-SameDb, count-SameDb, external-SameDb, read_options-SameDb,
            get_config-SameDb, check-SameDb, generate_environment-SameDb, certificate-SameDb,
            dump_ca-SameDb, start_joined-Guarded,
          )
          depth 32

    pub bootstrap-Guarded :
        {strict : Bool} (init : List (String × String))
        → Keeps (Guarded env.name strict) (bootstrap env bgp libs init)
    unfolding bootstrap choose_ca
    bootstrap-Guarded init =
        search
          (
            guarding, create_paths-SameDb, Bootstrapped.read_options-SameDb, set_ca-Guarded,
            new_ca-Guarded, dump_ca-SameDb, generate_environment-SameDb, certificate-SameDb,
            enable_service-Guarded, central-Guarded, listen-SameDb, chassis-Guarded, dpu-SameDb,
            from_ovs-Guarded,
          )
          depth 32
