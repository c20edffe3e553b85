-- ===== src/Hooks.antt =====
-- The hooks of microovn/ovn/leave.go and microovn/ovn/refresh.go. The mutex of the hooks is left out.
pub mod Refresh
pub mod Options
pub mod Bootstrap
pub mod Growth
pub mod Join
pub mod Started
pub mod Joined
pub mod Bootstrapped
pub mod Start
pub mod Requested
use microovn.Prelude.{String, Bool, List, [], ◌∷◌, if◌then◌else◌}
use microovn.Types.{srv_central, srv_switch, srv_chassis}
use microovn.Snap.{restart}
use microovn.Environment.{create_paths, generate_environment, cleanup_paths}
use microovn.Commands.{app_ctl}
use microovn.Cluster.{update_ovn_controller_remote_config}
use microovn.Node.{has_service_active}
use microovn.Node.Bgp.{BgpService}
use microovn.Node.Lifecycle.{disable_all_services}
use microovn.Effect.{Env, M, ret, attempt, ◌>>=◌, ◌>>◌, on_error, errorf, wrapf}

module _ (env : Env) (bgp : BgpService) where
  -- `Leave`
  unfoldable pub leave : M (Unit {0})
  leave = do disable_all_services env bgp; attempt (cleanup_paths env); ret tt

module _ (env : Env) where
  -- `refresh`
  unfoldable pub refresh : M (Unit {0})
  refresh = do
    create_paths env
    has_central ← has_service_active env srv_central
    has_switch ← has_service_active env srv_switch
    has_chassis ← has_service_active env srv_chassis
    on_error (wrapf "failed to generate the daemon configuration: ") (generate_environment env)
    if has_central
        then on_error (wrapf "failed to restart OVN northd: ") (restart env "ovn-northd")
        else ret tt
    if has_switch then update_ovn_controller_remote_config env else ret tt
    if has_chassis
        then (on_error (λ e. errorf "failed to reset OVN chassis cluster state")
              (app_ctl env "ovn-controller" ("sb-cluster-state-reset" ∷ []))
            >> ret tt)
        else ret tt
