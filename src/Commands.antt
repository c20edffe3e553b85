-- ===== src/Commands.antt =====
-- microovn/ovn/cmd/commands.go: the OVN and OVS commands that the daemon runs, and the databases that it
-- waits for.
pub mod Retry
use microovn.Prelude.{
  ℕ, zero, suc, String, Bool, true, false, not, ◌&&◌, ◌||◌, Option, none, some, List, [], ◌∷◌, ◌++◌,
  ◌==◌, any, if◌then◌else◌,
}
use microovn.Text.{◌<>◌, format}
use microovn.Environment.{central_ips}
use microovn.Paths.{
  ovn_database_sock, ovs_database_sock, ovsdb_schema, ovsdb_switch_schema, wrappers, join_path,
}
use microovn.Effect.{
  Env, Error, Result, ok, err, panic, M, ret, raise, either, lift, attempt, call, command, ◌>>=◌,
  ◌>>◌, on_error, errorf, wrapf,
}

-- `OvsdbSpec`
pub record OvsdbSpec : Type 0 where
  pub socket_url : String
  pub name : String
  pub short_name : String
  pub friendly_name : String
  pub schema : String
  pub is_central : Bool

-- `OvsdbType`; `unknown` is every int that is none of the constants.
pub data OvsdbType : Type 0 where
  nb_local sb_local switch_local unknown : OvsdbType

-- Whether the arguments set a timeout; if not, thirty seconds are added.
abbrev pub has_timeout : List String → Bool
has_timeout args = any (λ a. a == "--timeout") args || any (λ a. a == "-t") args

unfoldable pub with_timeout : List String → List String
with_timeout args = if has_timeout args then args else "--timeout" ∷ "30" ∷ args

module _ (env : Env) where
  -- `NewOvsdbSpec`
  unfoldable pub new_ovsdb_spec : OvsdbType → Result OvsdbSpec
  new_ovsdb_spec OvsdbType.nb_local = ok (record {
    socket_url = "unix:" <> ovn_database_sock env "nb";
    schema = ovsdb_schema env "nb";
    name = "OVN_Northbound";
    friendly_name = "Northbound";
    short_name = "nb";
    is_central = true;
  })
  new_ovsdb_spec OvsdbType.sb_local = ok (record {
    socket_url = "unix:" <> ovn_database_sock env "sb";
    schema = ovsdb_schema env "sb";
    name = "OVN_Southbound";
    friendly_name = "Southbound";
    short_name = "sb";
    is_central = true;
  })
  new_ovsdb_spec OvsdbType.switch_local = ok (record {
    socket_url = "unix:" <> ovs_database_sock env;
    schema = ovsdb_switch_schema env;
    name = "Open_vSwitch";
    friendly_name = "OpenvSwitch";
    short_name = "switch";
    is_central = false;
  })
  new_ovsdb_spec OvsdbType.unknown = err (errorf "unknown ovsdb type")

  -- `WaitForDBState`
  unfoldable pub wait_for_db_state : OvsdbSpec → String → ℕ → M (Unit {0})
  wait_for_db_state db state timeout = do
    on_error
        (wrapf (
          "database in '" <> db.name <> "' (" <> db.socket_url <> ") failed to reach state '"
          <> state <> "': "))
        (call env (
          command "ovsdb-client"
            ("--timeout" ∷ format timeout ∷ "wait" ∷ db.socket_url ∷ db.name ∷ state ∷ [])))
    ret tt

  -- The loop of `WaitForClusterDBState`: whether one host answers.
  unfoldable pub connect_any : String → String → ℕ → List String → M Bool
  connect_any db state port [] = ret false
  connect_any db state port (ip ∷ ips) = do
    r ← attempt (
        call env (
          command (join_path (wrappers env ∷ "ovsdb-client" ∷ []))
            ("-t" ∷ "10" ∷ "wait" ∷ ("ssl:" <> ip <> ":" <> format port) ∷ db ∷ state ∷ [])))
    either r (λ out. ret true) (λ e. connect_any db state port ips)

  -- `WaitForClusterDBState`
  unfoldable pub wait_for_cluster_db_state : String → String → ℕ → M (Unit {0})
  wait_for_cluster_db_state db state port = do
    ips ← on_error (λ e. errorf ("failed to get central IPs: " <> e.message)) (central_ips env)
    connected ← connect_any db state port ips
    if connected
        then ret tt
        else raise (errorf ("failed to connect to " <> db <> " database cluster"))

  -- At most `attempts` runs of a command that fails; `last` is the error of the run before.
  unfoldable pub retry : ℕ → String → List String → Error → M String
  retry zero cmd args last = raise last
  retry (suc attempts) cmd args last = do
    r ← attempt (call env (command cmd args))
    either r ret (λ e. retry attempts cmd args e)

  -- `ovnDBCtl`
  abbrev pub base_cmd : OvsdbType → Option String
  base_cmd OvsdbType.nb_local = some "ovn-nbctl"
  base_cmd OvsdbType.sb_local = some "ovn-sbctl"
  base_cmd OvsdbType.switch_local = none
  base_cmd OvsdbType.unknown = none

  unfoldable pub ovn_db_ctl : OvsdbType → ℕ → List String → M String
  ovn_db_ctl db_type timeout args = elim (base_cmd db_type) [
    | none ↦ raise (errorf "unknown DB type. OVN commands work only with NB or SB database")
    | some cmd ↦ do
      db ← lift (new_ovsdb_spec db_type)
      wait_for_db_state db "connected" timeout
      retry 3 cmd (with_timeout args) (errorf "")
  ]

  -- `NBCtl`, `SBCtl`
  abbrev pub nb_ctl : List String → M String
  nb_ctl args = ovn_db_ctl OvsdbType.nb_local 30 args

  abbrev pub sb_ctl : List String → M String
  sb_ctl args = ovn_db_ctl OvsdbType.sb_local 30 args

  -- `NBCtlCluster`
  unfoldable pub nb_ctl_cluster : List String → M String
  nb_ctl_cluster args = do
    on_error (λ e. errorf "failed to connect to OVN Northbound database cluster")
        (wait_for_cluster_db_state "OVN_Northbound" "connected" 6641)
    retry 3 (join_path (wrappers env ∷ "ovn-nbctl" ∷ [])) (with_timeout args) (errorf "")

  -- `VSCtl`
  unfoldable pub vs_ctl : List String → M String
  vs_ctl args = do
    db ← lift (new_ovsdb_spec OvsdbType.switch_local)
    wait_for_db_state db "connected" 30
    retry 3 "ovs-vsctl" (with_timeout args) (errorf "")

  -- `AppCtl`
  unfoldable pub app_ctl : String → List String → M String
  app_ctl target args = call env (command "ovn-appctl" ("-t" ∷ target ∷ args))

  -- `ControllerCtl`; the variable OVS_RUNDIR of the subprocess is left out.
  unfoldable pub controller_ctl : List String → M String
  controller_ctl args = call env (command "ovs-appctl" ("-t" ∷ "ovn-controller" ∷ args))

  -- `OvsdbClient`
  unfoldable pub ovsdb_client : OvsdbSpec → ℕ → ℕ → List String → M String
  ovsdb_client db connect_timeout result_timeout args = do
    wait_for_db_state db "connected" connect_timeout
    call env (command "ovsdb-client" ("-t" ∷ format result_timeout ∷ args))
