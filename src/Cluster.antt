-- ===== src/Cluster.antt =====
-- microovn/ovn/cluster/cluster.go: how OVN services are told where the databases are.
use microovn.Prelude.{[], ◌∷◌, ◌==◌, if◌then◌else◌}
use microovn.Text.{◌<>◌}
use microovn.Environment.{network_protocol, central_ips, connection_string}
use microovn.Commands.{OvsdbType, new_ovsdb_spec, nb_ctl, sb_ctl, vs_ctl}
use microovn.Effect.{Env, M, ret, lift, ◌>>=◌, ◌>>◌, on_error, errorf, wrapf}

module _ (env : Env) where
  -- `UpdateOvnListenConfig`
  unfoldable pub update_ovn_listen_config : M (Unit {0})
  update_ovn_listen_config = do
    nb ←
        on_error (wrapf "failed to get path to OVN NB database socket: ")
          (lift (new_ovsdb_spec env OvsdbType.nb_local))
    sb ←
        on_error (wrapf "failed to get path to OVN SB database socket: ")
          (lift (new_ovsdb_spec env OvsdbType.sb_local))
    protocol ← network_protocol env
    on_error (λ e. errorf ("error setting ovn NB connection string: " <> e.message))
        (nb_ctl env (
          "--no-leader-only"
          ∷ ("--db=" <> nb.socket_url)
          ∷ "set-connection"
          ∷ ("p" <> protocol <> ":6641:[::]")
          ∷ []))
    on_error (λ e. errorf ("error setting ovn SB connection string: " <> e.message))
        (sb_ctl env (
          "--no-leader-only"
          ∷ ("--db=" <> sb.socket_url)
          ∷ "set-connection"
          ∷ ("p" <> protocol <> ":6642:[::]")
          ∷ []))
    ret tt

  -- `UpdateOvnControllerRemoteConfig`
  unfoldable pub update_ovn_controller_remote_config : M (Unit {0})
  update_ovn_controller_remote_config = do
    ips ← on_error (wrapf "failed to get OVN central IPs: ") (central_ips env)
    connect ←
        on_error (wrapf "failed to get OVN SB connect string: ") (connection_string env ips 6642)
    on_error (λ e. errorf "failed to update OVS's 'ovn-remote' configuration")
        (vs_ctl env (
          if connect == ""
          then "remove" ∷ "open_vswitch" ∷ "." ∷ "external_ids" ∷ "ovn-remote" ∷ []
          else "set" ∷ "open_vswitch" ∷ "." ∷ ("external_ids:ovn-remote=" <> connect) ∷ []))
    ret tt
