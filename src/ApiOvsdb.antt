-- ===== src/ApiOvsdb.antt =====
-- microovn/api/ovsdb/schema_version.go: the endpoints that tell the versions of the OVN schemas.
use microovn.Prelude.{
  String, Bool, true, not, ◌&&◌, Option, none, some, List, [], ◌∷◌, ◌==◌, if◌then◌else◌,
}
use microovn.Text.{◌<>◌, trim_space}
use microovn.Types.{srv_central}
use microovn.Database.{Member}
use microovn.Commands.{OvsdbSpec, OvsdbType, new_ovsdb_spec, ovsdb_client}
use microovn.Node.{has_service_active, find_service}
use microovn.Ovsdb.{expected_schema_version}
use microovn.Api.{Response, sync, bad_request, internal_error}
use microovn.Cli.Status.{FetchError, no_error, SchemaVersionResult}
use microovn.Effect.{Env, M, ret, lift, attempt, either, call, issue, ◌>>=◌}

-- `supportedDBs`
abbrev pub supported_dbs : String → Option OvsdbType
supported_dbs name =
    if name == "sb"
    then some OvsdbType.sb_local
    else if name == "nb"
    then some OvsdbType.nb_local
    else if name == "switch"
    then some OvsdbType.switch_local
    else none

-- A client of a member: the host and the port of its address.
pub record Peer : Type 0 where
  pub hostname : String
  pub port : String

-- The clients of the cluster, which `s.Connect().Cluster(false)` gives, and the two requests to one of them
-- (Client.get_expected_version, Client.get_active_version).
pub record Peers : Type 0 where
  pub clients : String → List Peer
  pub expected : Peer → OvsdbSpec → M (String × FetchError)
  pub active : Peer → OvsdbSpec → M (String × FetchError)

abbrev server_error : {A : Type 0} → Response A
server_error = internal_error "internal server error"

module _ (env : Env) (peers : Peers) where
  abbrev no_peers : OvsdbSpec → M (List String)
  no_peers db = ret []

  -- `parseDbSpec` of a name that is unescaped and in lower case, and what is done with the result.
  unfoldable pub with_db_spec :
      {A : Type 0} → String → (OvsdbSpec → M (Response A)) → M (Response A)
  with_db_spec name f = elim (supported_dbs name) [
    | none ↦ ret (bad_request ("DB '" <> name <> "' not supported"))
    | some db_type ↦ do
      spec ← attempt (lift (new_ovsdb_spec env db_type))
      either spec f (λ e. ret server_error)
  ]

  unfoldable pub expected_of : OvsdbSpec → M (Response String)
  expected_of db = do
    r ← attempt (expected_schema_version env no_peers db)
    either r (λ v. ret (sync true v)) (λ e. ret server_error)

  -- `getExpectedSchemaVersion`
  abbrev pub get_expected_schema_version : String → M (Response String)
  get_expected_schema_version name = with_db_spec name expected_of

  -- The query of the other members, in the order of their replies; it does not fail.
  unfoldable pub ask_each : OvsdbSpec → List Peer → M (List SchemaVersionResult)
  ask_each db [] = ret []
  ask_each db (peer ∷ rest) = do
    r ← peers.expected peer db
    others ← ask_each db rest
    ret (record { host = peer.hostname; schema_version = r.0; error = r.1 } ∷ others)

  unfoldable pub clients_of : M (List Peer)
  clients_of = do out ← call env (issue "Cluster" ("all" ∷ [])); ret (peers.clients out)

  unfoldable pub all_expected_of : OvsdbSpec → M (Response (List SchemaVersionResult))
  all_expected_of db = do
    r ← attempt (expected_schema_version env no_peers db)
    either r
        (λ v. do
          c ← attempt clients_of
          either c
              (λ clients. do
                others ← ask_each db clients
                ret (
                    sync true (
                      record { host = env.address; schema_version = v; error = no_error }
                      ∷ others)))
              (λ e. ret server_error))
        (λ e. ret server_error)

  -- `getAllExpectedSchemaVersions`
  abbrev pub get_all_expected_schema_versions : String → M (Response (List SchemaVersionResult))
  get_all_expected_schema_versions name = with_db_spec name all_expected_of

  abbrev is_at : Peer → Member → Bool
  is_at peer node = peer.hostname <> ":" <> peer.port == node.address

  -- The inner loop of `forwardActiveSchemaVersion`: the first answer without an error.
  unfoldable pub ask_at : OvsdbSpec → Peer → List Member → M (Option String)
  ask_at db peer [] = ret none
  ask_at db peer (node ∷ nodes) = if not (is_at peer node) then ask_at db peer nodes else do
    r ← peers.active peer db
    elim r.1 [
      | no_error ↦ ret (some r.0)
      | FetchError.generic ↦ ask_at db peer nodes
      | FetchError.not_supported ↦ ask_at db peer nodes
    ]

  -- The outer loop.
  unfoldable pub forward_each : OvsdbSpec → List Member → List Peer → M (Response String)
  forward_each db nodes [] = ret server_error
  forward_each db nodes (peer ∷ rest) = do
    r ← ask_at db peer nodes
    elim r [ none ↦ forward_each db nodes rest | some v ↦ ret (sync true v) ]

  -- `forwardActiveSchemaVersion`
  unfoldable pub forward_active : OvsdbSpec → M (Response String)
  forward_active db = do
    n ← attempt (find_service env srv_central)
    either n
        (λ nodes. do
          c ← attempt clients_of
          either c (λ clients. forward_each db nodes clients) (λ e. ret server_error))
        (λ e. ret server_error)

  unfoldable pub active_of : Bool → OvsdbSpec → M (Response String)
  active_of has_central db = if db.is_central && not has_central then forward_active db else do
    r ← attempt (ovsdb_client env db 10 30 ("get-schema-version" ∷ db.socket_url ∷ []))
    either r (λ v. ret (sync true (trim_space v))) (λ e. ret server_error)

  -- `getActiveSchemaVersion`
  unfoldable pub get_active_schema_version : String → M (Response String)
  get_active_schema_version name = do
    h ← attempt (has_service_active env srv_central)
    either h (λ has_central. with_db_spec name (active_of has_central)) (λ e. ret server_error)
