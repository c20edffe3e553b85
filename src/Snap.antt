-- ===== src/Snap.antt =====
-- microovn/snap/snap.go: the snap services are controlled through snapctl.
use microovn.Prelude.{String, Bool, [], ◌∷◌, ◌++◌, if◌then◌else◌}
use microovn.Text.{◌<>◌}
use microovn.Effect.{Env, M, command, call, ret, ◌>>◌}

abbrev pub service_unit : String → String
service_unit service = "microovn." <> service

module _ (env : Env) where
  -- `Start`
  unfoldable pub start : String → Bool → M (Unit {0})
  start service enable = do
    let args = "start" ∷ service_unit service ∷ []
    call env (command "snapctl" (if enable then args ++ "--enable" ∷ [] else args))
    ret tt

  -- `Stop`
  unfoldable pub stop : String → Bool → M (Unit {0})
  stop service disable = do
    let args = "stop" ∷ service_unit service ∷ []
    call env (command "snapctl" (if disable then args ++ "--disable" ∷ [] else args))
    ret tt

  -- `Restart`
  unfoldable pub restart : String → M (Unit {0})
  restart service = do call env (command "snapctl" ("restart" ∷ service_unit service ∷ [])); ret tt

  -- `Reload`
  unfoldable pub reload : String → M (Unit {0})
  reload service = do
    call env (command "snapctl" ("restart" ∷ "--reload" ∷ service_unit service ∷ []))
    ret tt
