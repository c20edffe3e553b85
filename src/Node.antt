-- ===== src/Node.antt =====
-- microovn/node/node.go: the services that a node runs. The database says which services are enabled; the
-- snap services follow it.
pub mod Bgp
pub mod Lifecycle
pub mod Frame
pub mod Queries
use microovn.Prelude.{
  ℕ, ◌%◌, String, Bool, true, false, not, ◌&&◌, Option, none, some, List, [], ◌∷◌, map, ◌==◌, eqb,
  ltb, any, length, if◌then◌else◌,
}
use microovn.Text.{◌<>◌}
use microovn.Database.{Member, Service}
use microovn.Database.Services.{get_services, service_exists, create_service, delete_service}
use microovn.Types.{
  ExtraBgpConfig, WarningSet, check_valid_service, service_names, srv_central, srv_chassis, srv_bgp,
}
use microovn.Snap.{start, stop}
use microovn.Paths.{ovn_control_sock, central_db_path, central_db_backup_path}
use microovn.Certificates.{CertificateType, generate_new_service_certificate}
use microovn.Environment.{generate_environment}
use microovn.Commands.{OvsdbType, new_ovsdb_spec, wait_for_db_state, app_ctl, controller_ctl}
use microovn.Cluster.{update_ovn_listen_config}
use microovn.Node.Bgp.{BgpService}
use microovn.Effect.{
  Env, Error, Result, M, ret, raise, gets, lift, attempt, either, call, statement, file, ◌>>=◌,
  ◌>>◌, transaction, on_error, errorf, wrapf,
}

-- `errors.Join(a, b)` of two errors
abbrev pub joined_error : Error → Error → Error
joined_error a b = errorf (a.message <> "\n" <> b.message)

abbrev pub warnings_of : List Member → WarningSet
warnings_of centrals =
    if eqb (length centrals) 0
    then record { even_central = false; few_central = false }
    else record {
      even_central = eqb (length centrals % 2) 0;
      few_central = ltb (length centrals) 3;
    }

module _ (env : Env) where
  -- `HasServiceActive`
  unfoldable pub has_service_active : String → M Bool
  has_service_active service = transaction env do
    services ← get_services env (record { member = some env.name; service = none } ∷ [])
    ret (any (λ (s : Service). s.service == service) services)

  -- The loop of `FindService` over the members.
  unfoldable pub members_with : String → List Member → M (List Member)
  members_with service [] = ret []
  members_with service (m ∷ ms) = do
    exists ← service_exists env m.name service
    rest ← members_with service ms
    ret (if exists then m ∷ rest else rest)

  -- `FindService`
  unfoldable pub find_service : String → M (List Member)
  find_service service =
      on_error
        (λ e.
          errorf ("failed to find nodes with service '" <> service <> "': '" <> e.message <> "'"))
        (transaction env do
          call env (statement "SELECT id, name, address FROM core_cluster_members" [])
          members ← gets (λ db. db.members)
          members_with service members)

  -- `ListServices`: the pairs of a location and a service.
  unfoldable pub list_services : M (List (String × String))
  list_services = transaction env do
    records ← on_error (wrapf "failed to fetch service: ") (get_services env [])
    ret (map (λ (s : Service). (s.member, s.service)) records)

  -- `ServiceWarnings`
  unfoldable pub service_warnings : M WarningSet
  service_warnings = do centrals ← find_service srv_central; ret (warnings_of centrals)

  -- `activateService`
  unfoldable pub activate_service : String → Bool → M (Unit {0})
  activate_service service enable =
      if service == srv_central
      then (do
        on_error (wrapf "failed to start OVN NB: ") (start env "ovn-ovsdb-server-nb" enable)
        on_error (wrapf "failed to start OVN SB: ") (start env "ovn-ovsdb-server-sb" enable)
        on_error (wrapf "failed to start OVN northd: ") (start env "ovn-northd" enable))
      else if service == srv_chassis
      then on_error (wrapf "failed to start OVN chassis: ") (start env "chassis" enable)
      else on_error (wrapf "snapctl error, likely due to service not existing:\n")
          (start env service enable)

  -- `deactivateService`: errors are logged and dropped.
  unfoldable pub deactivate_service : String → Bool → M (Unit {0})
  deactivate_service service disable =
      if service == srv_central
      then (do
        attempt (stop env "ovn-northd" disable)
        attempt (stop env "ovn-ovsdb-server-nb" disable)
        attempt (stop env "ovn-ovsdb-server-sb" disable)
        ret tt)
      else if service == srv_chassis
      then attempt (stop env "chassis" disable) >> ret tt
      else attempt (stop env service disable) >> ret tt

  -- `joinCentral`
  unfoldable pub join_central : M (Unit {0})
  join_central = do
    let certificate = λ (service : String).
        on_error (λ e. errorf ("failed to generate TLS certificate for " <> service <> " service"))
          (generate_new_service_certificate env service CertificateType.server_type)
    certificate "ovnnb"
    certificate "ovnsb"
    certificate "ovn-northd"
    activate_service srv_central true
    update_ovn_listen_config env

  -- `joinChassis`
  unfoldable pub join_chassis : M (Unit {0})
  join_chassis = do
    on_error (λ e. errorf "failed to generate TLS certificate for ovn-controller service")
        (generate_new_service_certificate env "ovn-controller" CertificateType.server_type)
    activate_service srv_chassis true

  -- The wait of `leaveCentral` for one database.
  unfoldable pub wait_removed : OvsdbType → M (Unit {0})
  wait_removed db_type = do
    r ← attempt (lift (new_ovsdb_spec env db_type))
    either r (λ db. attempt (wait_for_db_state env db "removed" 30) >> ret tt) (λ e. ret tt)

  unfoldable pub move_to_backup : String → M (Unit {0})
  move_to_backup db = do
    backup ← central_db_backup_path env db
    attempt (call env (file "rename" (central_db_path env db ∷ backup ∷ [])))
    ret tt

  -- `leaveCentral`
  unfoldable pub leave_central : Bool → M (Unit {0})
  leave_central last_member = do
    attempt (app_ctl env (ovn_control_sock env "nb") ("cluster/leave" ∷ "OVN_Northbound" ∷ []))
    attempt (app_ctl env (ovn_control_sock env "sb") ("cluster/leave" ∷ "OVN_Southbound" ∷ []))
    if last_member
        then ret tt
        else wait_removed OvsdbType.nb_local >> wait_removed OvsdbType.sb_local
    move_to_backup "nb"
    move_to_backup "sb"
    deactivate_service srv_central true

  -- `leaveChassis`
  unfoldable pub leave_chassis : M (Unit {0})
  leave_chassis = do attempt (controller_ctl env ("exit" ∷ [])); deactivate_service srv_chassis true

  -- The loop of `ActivateEnabledServices`.
  unfoldable pub activate_all : Bool → List Service → M (Unit {0})
  activate_all enable [] = ret tt
  activate_all enable (s ∷ services) = do
    activate_service s.service enable
    activate_all enable services

  -- `ActivateEnabledServices`
  unfoldable pub activate_enabled_services : Bool → M (Unit {0})
  activate_enabled_services enable = transaction env do
    services ← get_services env (record { member = some env.name; service = none } ∷ [])
    activate_all enable services
