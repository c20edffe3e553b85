-- ===== src/Environment.antt =====
-- microovn/ovn/environment/environment.go: which hosts run OVN central, the strings that OVN services
-- connect to, the environment file, and the directories.
pub mod Cleanup
pub mod Removal
pub mod Hosts
use microovn.Prelude.{
  ℕ, String, Char, code, Bool, true, false, not, ◌&&◌, Option, none, some, List, [], ◌∷◌, map, ◌++◌,
  ◌==◌, eqb, any, length, if◌then◌else◌,
}
use microovn.Text.{◌<>◌, join, split, includes, format}
use microovn.Database.{Member, Service, ConfigItem}
use microovn.Database.Services.{get_services}
use microovn.Config.{get_config}
use microovn.Certificates.{get_ca}
use microovn.Paths.{ovn_env_file, join_path, required_dirs, backup_dirs}
use microovn.Effect.{
  Env, Error, Result, ok, err, panic, M, ret, raise, either, lift, gets, attempt, call, now,
  statement, file, ◌>>=◌, ◌>>◌, transaction, on_error, errorf, wrapf,
}

abbrev pub is_ok : {A : Type 0} → Result A → Bool
is_ok (ok a) = true
is_ok (err e) = false
is_ok panic = false

-- Addresses of the members that the query returns and that run the service; the first that is no
-- `IP:port` ends the loop.
unfoldable pub addresses :
    (String → Option String) → List Service → List Member → Result (List String)
addresses host_of servers [] = ok []
addresses host_of servers (m ∷ ms) =
    let rest = addresses host_of servers ms in
    if any (λ (s : Service). s.member == m.name) servers
    then (elim (host_of m.address) [
      | none ↦ err (errorf "not an ip:port")
      | some a ↦ elim rest [ ok l ↦ ok (a ∷ l) | err e ↦ err e | panic ↦ panic ]
    ])
    else rest

-- `initialNbSbHost`
unfoldable pub first_remote : String → List String → String
first_remote local [] = ""
first_remote local (a ∷ rest) = if not (a == local) then a else first_remote local rest

abbrev pub single : List String → String
single (a ∷ []) = a
single addrs = ""

abbrev pub bracketed : String → String
bracketed host = if includes ":" host then "[" <> host <> "]" else host

unfoldable pub initial_nb_sb_host : String → List String → String
initial_nb_sb_host local addrs =
    bracketed (if single addrs == "" then first_remote local addrs else single addrs)

-- `net.JoinHostPort(host, strconv.Itoa(port))` behind the protocol.
abbrev pub endpoint : String → ℕ → String → String
endpoint protocol port host = protocol <> ":" <> bracketed host <> ":" <> format port

-- The part of `filepath.Split(dir)` after the last slash.
abbrev pub last_part : List String → String
last_part [] = ""
last_part (x ∷ []) = x
last_part (x ∷ y ∷ rest) = last_part (y ∷ rest)

abbrev pub base_name : String → String
base_name dir = last_part (split 47 dir)

abbrev pub no_errors : List String → Bool
no_errors [] = true
no_errors (e ∷ errs) = false

module _ (env : Env) where
  -- `NetworkProtocol`
  unfoldable pub network_protocol : M String
  network_protocol = do r ← attempt (get_ca env); ret (if is_ok r then "ssl" else "tcp")

  -- `IsExternalCentralConfigured`
  unfoldable pub is_external_central_configured : M Bool
  is_external_central_configured = do
    item ← get_config env "ovn.central-ips"
    ret (elim item [ none ↦ false | some c ↦ true ])

  -- `remoteAddressesFromConfig`
  unfoldable pub remote_addresses_from_config : M (Option (List String))
  remote_addresses_from_config = do
    item ← get_config env "ovn.central-ips"
    ret (elim item [ none ↦ none | some c ↦ some (split 44 c.value) ])

  -- The transaction of `defaultRemoteAddresses`.
  unfoldable pub central_addresses : M (List String)
  central_addresses = do
    servers ← get_services env (record { member = none; service = some "central" } ∷ [])
    call env (statement "SELECT name, address FROM core_cluster_members" [])
    members ← gets (λ db. db.members)
    lift (addresses env.host_of servers members)

  -- The configured hosts, and if there are none the members that run OVN central.
  unfoldable pub or_default : Option (List String) → M (List String)
  or_default none = transaction env central_addresses
  or_default (some addrs) = ret addrs

  -- `CentralIps`
  unfoldable pub central_ips : M (List String)
  central_ips = do configured ← remote_addresses_from_config; or_default configured

  -- `ConnectionString`
  unfoldable pub connection_string : List String → ℕ → M String
  connection_string addrs port = do
    protocol ← network_protocol
    ret (join "," (map (endpoint protocol port) addrs))

  -- The text that the template ovnEnvTpl makes.
  abbrev pub env_text : String → String → String → String
  env_text initial nb sb =
      "# # Generated by MicroOVN, DO NOT EDIT.\nOVN_INITIAL_NB=\""
      <> initial
      <> "\"\nOVN_INITIAL_SB=\""
      <> initial
      <> "\"\nOVN_NB_CONNECT=\""
      <> nb
      <> "\"\nOVN_SB_CONNECT=\""
      <> sb
      <> "\"\nOVN_LOCAL_IP=\""
      <> (if env.is_ip6 env.address then "[" <> env.address <> "]" else env.address)
      <> "\"\n"

  -- `GenerateEnvironment`
  unfoldable pub generate_environment : M (Unit {0})
  generate_environment = do
    ips ← on_error (wrapf "failed to get OVN central IPs: ") central_ips
    nb ← connection_string ips 6641
    sb ← connection_string ips 6642
    on_error (wrapf "couldn't open ovn.env: ") (call env (file "open" (ovn_env_file env ∷ [])))
    on_error (wrapf "couldn't render ovn.env: ") (
        call env (
          file "write"
            (ovn_env_file env ∷ env_text (initial_nb_sb_host env.address ips) nb sb ∷ [])))
    ret tt

  -- `CreatePaths`
  unfoldable pub create_dirs : List String → M (Unit {0})
  create_dirs [] = ret tt
  create_dirs (d ∷ dirs) = do
    on_error (wrapf ("unable to create \"" <> d <> "\": ")) (call env (file "mkdir_all" (d ∷ [])))
    create_dirs dirs

  unfoldable pub create_paths : M (Unit {0})
  create_paths = create_dirs (required_dirs env)

  -- A loop that collects the errors of its steps.
  unfoldable pub each_error : (String → M (Unit {0})) → List String → M (List String)
  each_error f [] = ret []
  each_error f (x ∷ xs) = do
    r ← attempt (f x)
    rest ← each_error f xs
    either r (λ u. ret rest) (λ e. ret (e.message ∷ rest))

  unfoldable pub backup : String → String → M (Unit {0})
  backup path dir = do
    call env (file "rename" (dir ∷ join_path (path ∷ base_name dir ∷ []) ∷ []))
    ret tt

  unfoldable pub remove_dir : String → M (Unit {0})
  remove_dir dir = do
    on_error (wrapf ("failed to remove directory '" <> dir <> "': "))
        (call env (file "remove_all" (dir ∷ [])))
    ret tt

  -- `CleanupPaths` up to the backups: the errors of the backups.
  unfoldable pub make_backup : M (List String)
  make_backup = do
    time ← now env
    let path = join_path (env.snap_common ∷ ("backup_" <> time) ∷ [])
    on_error
        (λ e. errorf (
          "failed to create backup directory '" <> path
          <> "', refusing to continue with data removal: " <> e.message))
        (call env (file "mkdir" (path ∷ "0750" ∷ [])))
    each_error (backup path) (backup_dirs env)

  -- `CleanupPaths`
  unfoldable pub cleanup_paths : M (Unit {0})
  cleanup_paths = do
    errs ← make_backup
    if not (no_errors errs)
        then raise (
            errorf (
              join "\n" (
                errs
                ++ "failures occured during backup, refusing to continue with data removal" ∷ [])))
        else do
          errs ← each_error remove_dir (required_dirs env)
          if no_errors errs then ret tt else raise (errorf (join "\n" errs))
