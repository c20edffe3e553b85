-- ===== src/Hooks/Refresh.antt =====
-- What the refresh does to the cluster database.
use microovn.Prelude.{String, List, [], ◌∷◌, ◌≡◌}
use microovn.Effect.{Env, World}
use microovn.Effect.Keeps.{Keeps, Keeps-bind, Keeps-on_error}
use microovn.Effect.Quiet.{SameDb, same_db, call-SameDb, quiet}
use microovn.Snap.{restart}
use microovn.Environment.{create_dirs, create_paths}
use microovn.Commands.{vs_ctl, app_ctl}
use microovn.Cluster.{update_ovn_controller_remote_config}
use microovn.Node.Frame.{
  has_service_active-SameDb, generate_environment-SameDb, central_ips-SameDb,
  connection_string-SameDb, wait_for_db_state-SameDb, retry-SameDb,
}
use microovn.Hooks.{refresh}

module _ (env : Env) where
  create_dirs-SameDb : (dirs : List String) → Keeps SameDb (create_dirs env dirs)
  unfolding create_dirs
  create_dirs-SameDb [] = search quiet
  create_dirs-SameDb (d ∷ dirs) =
      Keeps-bind same_db _ _ (Keeps-on_error same_db _ _ (call-SameDb env _))
        λ u. create_dirs-SameDb dirs

  pub create_paths-SameDb : Keeps SameDb (create_paths env)
  unfolding create_paths
  create_paths-SameDb = create_dirs-SameDb _

  restart-SameDb : (s : String) → Keeps SameDb (restart env s)
  unfolding restart
  restart-SameDb s = search quiet

  vs_ctl-SameDb : (args : List String) → Keeps SameDb (vs_ctl env args)
  unfolding vs_ctl
  vs_ctl-SameDb args = search (quiet, wait_for_db_state-SameDb, retry-SameDb) depth 8

  pub remote-SameDb : Keeps SameDb (update_ovn_controller_remote_config env)
  unfolding update_ovn_controller_remote_config
  remote-SameDb =
      search (quiet, central_ips-SameDb, connection_string-SameDb, vs_ctl-SameDb) depth 12

  pub refresh-SameDb : Keeps SameDb (refresh env)
  unfolding refresh app_ctl
  refresh-SameDb =
      search
        (
          quiet, create_paths-SameDb, has_service_active-SameDb, generate_environment-SameDb,
          restart-SameDb, remote-SameDb,
        )
        depth 24

  -- The refresh leaves the cluster database as it is, whatever it returns and whichever calls fail.
  pub refresh-db : (w : World) → (refresh env w).1.db ≡ w.db
  refresh-db = refresh-SameDb.at
