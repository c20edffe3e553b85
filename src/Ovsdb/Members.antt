-- ===== src/Ovsdb/Members.antt =====
-- How isClusterUpgradeReady of microovn/ovn/ovsdb/ovsdb.go asks the members of the cluster.
use microovn.Prelude.{ℕ, String, Bool, List, [], ◌∷◌}
use microovn.Text.{◌<>◌}
use microovn.Commands.{OvsdbSpec, OvsdbType}
use microovn.Cli.Status.{FetchError, no_error, generic, not_supported}
use microovn.ApiOvsdb.{Peer, Peers, clients_of}
use microovn.Effect.{Env, M, ret, raise, on_error, wrapf, errorf, ◌>>=◌}
use microovn.Effect.Keeps.{Keeps, Keeps-bind, Keeps-ret, Keeps-raise, Keeps-on_error}
use microovn.Ovsdb.{upgrade_central_db}
use microovn.Ovsdb.Waiting.{Later, later, call-Later}

module _ (env : Env) (peers : Peers) where
  abbrev no_contact : {A : Type 0} → Peer → M A
  no_contact peer = raise (errorf ("failed to contact " <> peer.hostname <> ":" <> peer.port))

  -- The query of the members, one after the other.
  unfoldable pub ask_versions : OvsdbSpec → List Peer → M (List String)
  ask_versions db [] = ret []
  ask_versions db (peer ∷ rest) = do
    r ← peers.expected peer db
    elim r.1 [
      | no_error ↦ do others ← ask_versions db rest; ret (r.0 ∷ others)
      | generic ↦ no_contact peer
      | not_supported ↦ no_contact peer
    ]

  -- The versions that the members expect. is_cluster_upgrade_ready puts its own text before each error, also
  -- before that of the client; the error is only logged.
  unfoldable pub query_members : OvsdbSpec → M (List String)
  query_members db = do
    clients ←
        on_error (wrapf "failed to get a client for every cluster member: ") (clients_of env peers)
    ask_versions db clients

  -- `UpgradeCentralDB` with this query.
  abbrev pub upgrade_database : ℕ → OvsdbType → M Bool
  upgrade_database fuel db_type = upgrade_central_db env query_members fuel db_type

  module _
      (expected-Later : (peer : Peer) (db : OvsdbSpec) → Keeps Later (peers.expected peer db)) where
    answer-Later :
        (db : OvsdbSpec) (peer : Peer) (rest : List Peer) (version : String) (e : FetchError)
        → Keeps Later (ask_versions db rest)
        → Keeps Later (elim e [
          | no_error ↦ ask_versions db rest >>= λ others. ret (version ∷ others)
          | generic ↦ no_contact peer
          | not_supported ↦ no_contact peer
        ])
    answer-Later db peer rest version no_error k =
        Keeps-bind later _ _ k λ others. Keeps-ret later _
    answer-Later db peer rest version generic k = Keeps-raise later _
    answer-Later db peer rest version not_supported k = Keeps-raise later _

    ask_versions-Later : (db : OvsdbSpec) (ps : List Peer) → Keeps Later (ask_versions db ps)
    unfolding ask_versions
    ask_versions-Later db [] = Keeps-ret later _
    ask_versions-Later db (peer ∷ rest) =
        Keeps-bind later _ _ (expected-Later peer db)
          λ r. answer-Later db peer rest r.0 r.1 (ask_versions-Later db rest)

    -- The query of the members leaves the database alone if each request does.
    pub query_members-Later : (db : OvsdbSpec) → Keeps Later (query_members db)
    unfolding query_members clients_of
    query_members-Later db =
        Keeps-bind later _ _
          (Keeps-on_error later _ _
            (Keeps-bind later _ _ (call-Later env _) λ out. Keeps-ret later _))
          λ clients. ask_versions-Later db clients
