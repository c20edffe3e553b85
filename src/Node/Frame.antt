-- ===== src/Node/Frame.antt =====
-- Which actions of a node leave the cluster database as it is: all that start or stop something, make
-- certificates, write the environment file or run OVN commands.
use microovn.Prelude.{ℕ, zero, suc, String, Bool, Option, none, some, List, [], ◌∷◌}
use microovn.Database.Config.Ops.{get_config_item-db}
use microovn.Database.Config.{get_config_item}
use microovn.Database.Services.Ops.{get_services-db, service_exists-db}
use microovn.Database.Services.{ServiceFilter, get_services, service_exists}
use microovn.Database.{Member}
use microovn.Effect.{Env, Error}
use microovn.Effect.Keeps.{Keeps, Keeps-bind, Keeps-ret}
use microovn.Effect.Quiet.{SameDb, same_db, quiet}
use microovn.Config.Map.{get_config-SameDb}
use microovn.Snap.{start, stop}
use microovn.Certificates.{
  CertificateType, read_ca, get_ca, parse_private_key, issue_certificate,
  generate_new_service_certificate,
}
use microovn.Environment.{
  network_protocol, remote_addresses_from_config, central_addresses, central_ips, or_default,
  connection_string, generate_environment,
}
use microovn.Commands.{
  OvsdbSpec, OvsdbType, wait_for_db_state, retry, ovn_db_ctl, app_ctl, controller_ctl,
}
use microovn.Cluster.{update_ovn_listen_config}
use microovn.Node.{
  has_service_active, members_with, find_service, activate_service, deactivate_service,
  join_central, join_chassis, wait_removed, move_to_backup, leave_central, leave_chassis,
}
use microovn.Paths.{central_db_backup_path}

module _ (env : Env) where
  pub get_config_item-SameDb : (k : String) → Keeps SameDb (get_config_item env k)
  get_config_item-SameDb k = record { at = get_config_item-db env k }

  pub get_services-SameDb : (fs : List ServiceFilter) → Keeps SameDb (get_services env fs)
  get_services-SameDb fs = record { at = get_services-db env fs }

  service_exists-SameDb : (m s : String) → Keeps SameDb (service_exists env m s)
  service_exists-SameDb m s = record { at = service_exists-db env m s }

  pub start-SameDb : (s : String) (b : Bool) → Keeps SameDb (start env s b)
  unfolding start
  start-SameDb s b = search quiet

  pub stop-SameDb : (s : String) (b : Bool) → Keeps SameDb (stop env s b)
  unfolding stop
  stop-SameDb s b = search quiet

  pub activate_service-SameDb : (s : String) (b : Bool) → Keeps SameDb (activate_service env s b)
  unfolding activate_service
  activate_service-SameDb s b = search (quiet, start-SameDb) depth 14

  pub deactivate_service-SameDb :
      (s : String) (b : Bool) → Keeps SameDb (deactivate_service env s b)
  unfolding deactivate_service
  deactivate_service-SameDb s b = search (quiet, stop-SameDb) depth 14

  -- The CA and the certificates.
  parse_private_key-SameDb : (k : String) → Keeps SameDb (parse_private_key env k)
  unfolding parse_private_key
  parse_private_key-SameDb k = search quiet depth 14

  get_ca-SameDb : Keeps SameDb (get_ca env)
  unfolding get_ca read_ca
  get_ca-SameDb = search (quiet, get_config_item-SameDb, parse_private_key-SameDb) depth 14

  pub issue_certificate-SameDb :
      (cn s : String) (t : CertificateType) (signer : List String)
      → Keeps SameDb (issue_certificate env cn s t signer)
  unfolding issue_certificate
  issue_certificate-SameDb cn s t signer = search quiet depth 14

  pub certificate-SameDb :
      (s : String) (t : CertificateType) → Keeps SameDb (generate_new_service_certificate env s t)
  unfolding generate_new_service_certificate
  certificate-SameDb s t = search (quiet, get_ca-SameDb, issue_certificate-SameDb) depth 24

  -- The environment file.
  network_protocol-SameDb : Keeps SameDb (network_protocol env)
  unfolding network_protocol
  network_protocol-SameDb = search (quiet, get_ca-SameDb)

  or_default-SameDb : (o : Option (List String)) → Keeps SameDb (or_default env o)
  unfolding or_default central_addresses
  or_default-SameDb none = search (quiet, get_services-SameDb) depth 10
  or_default-SameDb (some addrs) = search quiet

  pub central_ips-SameDb : Keeps SameDb (central_ips env)
  unfolding central_ips remote_addresses_from_config
  central_ips-SameDb = search (quiet, get_config-SameDb, or_default-SameDb) depth 14

  pub connection_string-SameDb :
      (addrs : List String) (port : ℕ) → Keeps SameDb (connection_string env addrs port)
  unfolding connection_string
  connection_string-SameDb addrs port = search (quiet, network_protocol-SameDb)

  pub generate_environment-SameDb : Keeps SameDb (generate_environment env)
  unfolding generate_environment
  generate_environment-SameDb =
      search (quiet, central_ips-SameDb, connection_string-SameDb) depth 24

  -- OVN commands.
  pub wait_for_db_state-SameDb :
      (db : OvsdbSpec) (state : String) (n : ℕ) → Keeps SameDb (wait_for_db_state env db state n)
  unfolding wait_for_db_state
  wait_for_db_state-SameDb db state n = search quiet

  pub retry-SameDb :
      (n : ℕ) (cmd : String) (args : List String) (e : Error)
      → Keeps SameDb (retry env n cmd args e)
  unfolding retry
  retry-SameDb zero cmd args e = search quiet
  retry-SameDb (suc n) cmd args e = search (quiet, retry-SameDb n cmd args) depth 8

  ovn_db_ctl-SameDb :
      (t : OvsdbType) (n : ℕ) (args : List String) → Keeps SameDb (ovn_db_ctl env t n args)
  unfolding ovn_db_ctl
  ovn_db_ctl-SameDb OvsdbType.nb_local n args =
      search (quiet, wait_for_db_state-SameDb, retry-SameDb) depth 8
  ovn_db_ctl-SameDb OvsdbType.sb_local n args =
      search (quiet, wait_for_db_state-SameDb, retry-SameDb) depth 8
  ovn_db_ctl-SameDb OvsdbType.switch_local n args = search quiet
  ovn_db_ctl-SameDb OvsdbType.unknown n args = search quiet

  pub listen-SameDb : Keeps SameDb (update_ovn_listen_config env)
  unfolding update_ovn_listen_config
  listen-SameDb = search (quiet, network_protocol-SameDb, ovn_db_ctl-SameDb) depth 20

  -- Joining and leaving.
  pub join_central-SameDb : Keeps SameDb (join_central env)
  unfolding join_central
  join_central-SameDb =
      search (quiet, certificate-SameDb, activate_service-SameDb, listen-SameDb) depth 20

  pub join_chassis-SameDb : Keeps SameDb (join_chassis env)
  unfolding join_chassis
  join_chassis-SameDb = search (quiet, certificate-SameDb, activate_service-SameDb) depth 8

  wait_removed-SameDb : (t : OvsdbType) → Keeps SameDb (wait_removed env t)
  unfolding wait_removed
  wait_removed-SameDb t = search (quiet, wait_for_db_state-SameDb) depth 10

  move_to_backup-SameDb : (db : String) → Keeps SameDb (move_to_backup env db)
  unfolding move_to_backup central_db_backup_path
  move_to_backup-SameDb db = search quiet depth 10

  pub leave_central-SameDb : (last : Bool) → Keeps SameDb (leave_central env last)
  unfolding leave_central app_ctl
  leave_central-SameDb last =
      search (quiet, wait_removed-SameDb, move_to_backup-SameDb, deactivate_service-SameDb) depth 20

  pub leave_chassis-SameDb : Keeps SameDb (leave_chassis env)
  unfolding leave_chassis controller_ctl
  leave_chassis-SameDb = search (quiet, deactivate_service-SameDb) depth 8

  -- The questions that a node asks the database.
  pub has_service_active-SameDb : (s : String) → Keeps SameDb (has_service_active env s)
  unfolding has_service_active
  has_service_active-SameDb s = search (quiet, get_services-SameDb) depth 8

  pub members_with-SameDb : (s : String) (ms : List Member) → Keeps SameDb (members_with env s ms)
  unfolding members_with
  members_with-SameDb s [] = search quiet
  members_with-SameDb s (m ∷ ms) =
      Keeps-bind same_db _ _ (service_exists-SameDb m.name s)
        λ b. Keeps-bind same_db _ _ (members_with-SameDb s ms) λ rest. Keeps-ret same_db _

  pub find_service-SameDb : (s : String) → Keeps SameDb (find_service env s)
  unfolding find_service
  find_service-SameDb s = search (quiet, members_with-SameDb) depth 10
