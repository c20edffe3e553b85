-- ===== src/Node/Lifecycle.antt =====
-- `EnableService`, `DisableService` and `DisableAllServices` of microovn/node/node.go.
pub mod Enable
pub mod Central
pub mod Idle
pub mod Disable
use microovn.Prelude.{
  ℕ, String, Bool, true, false, not, ◌&&◌, Option, List, [], ◌∷◌, ◌==◌, eqb, length, if◌then◌else◌,
}
use microovn.Database.Services.{create_service, delete_service}
use microovn.Types.{
  ExtraBgpConfig, check_valid_service, service_names, srv_central, srv_chassis, srv_bgp,
}
use microovn.Environment.{generate_environment}
use microovn.Node.{
  has_service_active, find_service, activate_service, deactivate_service, join_central,
  join_chassis, leave_central, leave_chassis, joined_error,
}
use microovn.Node.Bgp.{BgpService}
use microovn.Effect.{
  Env, Error, M, ret, raise, attempt, either, ◌>>=◌, ◌>>◌, transaction, on_error, errorf, wrapf,
}

module _ (env : Env) (bgp : BgpService) where
  -- The check for the last central: whether this node is the last one.
  unfoldable pub check_last_central : String → Bool → M Bool
  check_last_central service allow_last_central =
      if service == srv_central
      then (do
        centrals ← find_service env service
        if eqb (length centrals) 1
            then (if allow_last_central
                then ret true
                else raise
                    (errorf "cannot disable last central node without explicit confirmation"))
            else ret false)
      else ret false

  abbrev pub forget : String → M (Unit {0})
  forget service = transaction env (delete_service env env.name service)

  -- The switch at the end of `DisableService`.
  unfoldable pub stop_service : String → Bool → M (Unit {0})
  stop_service service last_central =
      if service == srv_central
      then leave_central env last_central
      else if service == srv_chassis
      then leave_chassis env
      else if service == srv_bgp
      then bgp.disable
      else deactivate_service env service true

  -- `DisableService`
  unfoldable pub disable_service : String → Bool → M (Unit {0})
  disable_service service allow_last_central = do
    exists ← has_service_active env service
    if not exists then raise (errorf "this service is not enabled") else do
      last_central ← check_last_central service allow_last_central
      forget service
      stop_service service last_central

  -- The switch at the end of `EnableService`.
  unfoldable pub start_service : String → Option ExtraBgpConfig → M (Unit {0})
  start_service service bgp_config =
      if service == srv_central
      then join_central env
      else if service == srv_chassis
      then join_chassis env
      else if service == srv_bgp
      then bgp.enable bgp_config
      else activate_service env service true

  -- The row is taken back when the service does not start.
  unfoldable pub start_or_forget : String → Option ExtraBgpConfig → M (Unit {0})
  start_or_forget service bgp_config = do
    r ← attempt (start_service service bgp_config)
    either r ret λ e. do
      d ← attempt (forget service)
      either d (λ u. raise e) (λ f. raise (joined_error e f))

  abbrev pub record_service : String → M ℕ
  record_service service = transaction env (create_service env env.name service)

  -- `EnableService`
  unfoldable pub enable_service : String → Option ExtraBgpConfig → M (Unit {0})
  enable_service service bgp_config = do
    exists ← has_service_active env service
    if exists
        then raise (errorf "this service is already enabled")
        else if not (check_valid_service service)
        then raise (errorf "service does not exist")
        else do
          record_service service
          on_error (wrapf "failed to regenerate environment file after enabling central service: ")
              (generate_environment env)
          start_or_forget service bgp_config

  -- `DisableAllServices`: errors are logged and dropped.
  unfoldable pub disable_each : List String → M (Unit {0})
  disable_each [] = ret tt
  disable_each (service ∷ services) = do
    attempt (disable_service service false)
    disable_each services

  unfoldable pub disable_all_services : M (Unit {0})
  disable_all_services = disable_each service_names
