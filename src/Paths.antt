-- ===== src/Paths.antt =====
-- microovn/ovn/paths/paths.go: where the files are.
use microovn.Prelude.{String, not, List, [], ◌∷◌, ◌==◌, filter}
use microovn.Text.{◌<>◌, join}
use microovn.Effect.{Env, M, now, ret, ◌>>=◌}

-- `filepath.Join` of parts that are clean: no `.`, `..` or double slash, and no slash at an end.
abbrev pub join_path : List String → String
join_path parts = join "/" (filter (λ p. not (p == "")) parts)

module _ (env : Env) where
  abbrev pub runtime_dir : String
  runtime_dir = join_path (env.snap_common ∷ "run" ∷ [])

  abbrev pub data_dir : String
  data_dir = join_path (env.snap_common ∷ "data" ∷ [])

  -- `LogsDir`, `OvnRuntimeDir`, `CentralDBDir`
  abbrev pub logs_dir : String
  logs_dir = join_path (env.snap_common ∷ "logs" ∷ [])

  abbrev pub ovn_runtime_dir : String
  ovn_runtime_dir = join_path (runtime_dir ∷ "ovn" ∷ [])

  abbrev pub central_db_dir : String
  central_db_dir = join_path (data_dir ∷ "central" ∷ "db" ∷ [])

  -- `CentralDBNBPath`, `CentralDBSBPath`
  abbrev pub central_db_path : String → String
  central_db_path db = join_path (central_db_dir ∷ ("ovn" <> db <> "_db.db") ∷ [])

  -- `CentralDBNBBackupPath`, `CentralDBSBBackupPath`: the clock answers with the formatted time.
  unfoldable pub central_db_backup_path : String → M String
  central_db_backup_path db = do
    time ← now env
    ret (join_path (central_db_dir ∷ ("ovn" <> db <> "_db_backup_" <> time <> ".db") ∷ []))

  abbrev pub switch_db_dir : String
  switch_db_dir = join_path (data_dir ∷ "switch" ∷ "db" ∷ [])

  abbrev pub switch_runtime_dir : String
  switch_runtime_dir = join_path (runtime_dir ∷ "switch" ∷ [])

  abbrev pub switch_data_dir : String
  switch_data_dir = join_path (data_dir ∷ "switch" ∷ "openvswitch" ∷ [])

  abbrev pub env_dir : String
  env_dir = join_path (data_dir ∷ "env" ∷ [])

  abbrev pub ovn_env_file : String
  ovn_env_file = join_path (env_dir ∷ "ovn.env" ∷ [])

  -- `OvnNBDatabaseSock`, `OvnSBDatabaseSock`
  abbrev pub ovn_database_sock : String → String
  ovn_database_sock db = join_path (ovn_runtime_dir ∷ ("ovn" <> db <> "_db.sock") ∷ [])

  -- `OvnNBControlSock`, `OvnSBControlSock`
  abbrev pub ovn_control_sock : String → String
  ovn_control_sock db = join_path (ovn_runtime_dir ∷ ("ovn" <> db <> "_db.ctl") ∷ [])

  abbrev pub ovs_database_sock : String
  ovs_database_sock = join_path (switch_runtime_dir ∷ "db.sock" ∷ [])

  abbrev pub pki_dir : String
  pki_dir = join_path (data_dir ∷ "pki" ∷ [])

  abbrev pub pki_ca_cert_file : String
  pki_ca_cert_file = join_path (pki_dir ∷ "cacert.pem" ∷ [])

  abbrev pub get_service_cert_files : String → String × String
  get_service_cert_files service = (
    join_path (pki_dir ∷ (service <> "-cert.pem") ∷ []),
    join_path (pki_dir ∷ (service <> "-privkey.pem") ∷ []),
  )

  abbrev pub pki_ovn_nb_cert_files : String × String
  pki_ovn_nb_cert_files = get_service_cert_files "ovnnb"

  abbrev pub pki_ovn_sb_cert_files : String × String
  pki_ovn_sb_cert_files = get_service_cert_files "ovnsb"

  abbrev pub pki_ovn_northd_cert_files : String × String
  pki_ovn_northd_cert_files = get_service_cert_files "ovn-northd"

  abbrev pub pki_ovn_controller_cert_files : String × String
  pki_ovn_controller_cert_files = get_service_cert_files "ovn-controller"

  abbrev pub pki_client_cert_files : String × String
  pki_client_cert_files = get_service_cert_files "client"

  -- `OvsdbNbSchema`, `OvsdbSbSchema`
  abbrev pub ovsdb_schema : String → String
  ovsdb_schema db = join_path (env.snap ∷ "share" ∷ "ovn" ∷ ("ovn-" <> db <> ".ovsschema") ∷ [])

  abbrev pub ovsdb_switch_schema : String
  ovsdb_switch_schema = join_path (env.snap ∷ "share" ∷ "openvswitch" ∷ "vswitch.ovsschema" ∷ [])

  abbrev pub wrappers : String
  wrappers = join_path (env.snap ∷ "commands" ∷ [])

  abbrev pub bird_config_dir : String
  bird_config_dir = join_path (data_dir ∷ "bird" ∷ [])

  abbrev pub bird_default_config : String
  bird_default_config = join_path (env.snap ∷ "etc" ∷ "bird" ∷ "bird.conf" ∷ [])

  abbrev pub bird_config_file : String
  bird_config_file = join_path (bird_config_dir ∷ "bird.conf" ∷ [])

  abbrev pub required_dirs : List String
  required_dirs =
      ovn_runtime_dir ∷ central_db_dir ∷ switch_db_dir ∷ switch_runtime_dir ∷ switch_data_dir
      ∷ logs_dir ∷ pki_dir ∷ env_dir ∷ bird_config_dir ∷ []

  abbrev pub backup_dirs : List String
  backup_dirs = data_dir ∷ logs_dir ∷ bird_config_dir ∷ []
