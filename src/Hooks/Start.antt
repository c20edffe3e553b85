-- ===== src/Hooks/Start.antt =====
-- microovn/ovn/start.go: the start of the daemon on a member. The upgrades of the two databases
-- (Ovsdb.upgrade_central_db) run next to it from there on.
use microovn.Prelude.{Bool, true, false, [], ◌∷◌, if◌then◌else◌}
use microovn.Types.{srv_central}
use microovn.Paths.{wrappers, join_path}
use microovn.Environment.{create_paths, generate_environment}
use microovn.Cluster.{update_ovn_listen_config, update_ovn_controller_remote_config}
use microovn.Node.{activate_enabled_services, has_service_active}
use microovn.Netplan.{run_command}
use microovn.Effect.{Env, M, ret, attempt, either, call, issue, on_error, wrapf, ◌>>=◌, ◌>>◌}

module _ (env : Env) where
  -- The part of `Start` for a database that is open: whether the upgrades are started.
  unfoldable pub start_member : M Bool
  start_member = do
    create_paths env
    on_error (wrapf "failed to enable required services: ") (activate_enabled_services env true)
    on_error (wrapf "failed to generate the daemon configuration: ") (generate_environment env)
    central_active ←
        on_error (wrapf "failed to query local services: ") (has_service_active env srv_central)
    if central_active then (do attempt (update_ovn_listen_config env); ret tt) else ret tt
    update_ovn_controller_remote_config env
    attempt (run_command env (join_path (wrappers env ∷ "refresh-expiring-certs" ∷ [])) [])
    ret central_active

  -- `Start`
  unfoldable pub start_daemon : M Bool
  start_daemon = do
    r ← attempt (call env (issue "IsOpen" []))
    either r (λ out. start_member) (λ e. ret false)
