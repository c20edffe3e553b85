-- ===== src/Ovsdb/Waiting.antt =====
-- What the steps of an upgrade leave: the database, and the waits so far.
use microovn.Prelude.{
  ℕ, suc, ◌≤◌, ◌==◌, String, Bool, false, List, [], ◌∷◌, ◌≡◌, refl, ◌∙◌, arith, if◌then◌else◌,
}
use microovn.Database.{Member}
use microovn.Database.Services.{service_exists, get_service_id}
use microovn.Commands.{OvsdbSpec, ovsdb_client, wait_for_db_state}
use microovn.Node.{find_service, members_with}
use microovn.Effect.{
  Env, World, Call, begin, commit, clock, statement, command, file, issue, M, call,
}
use microovn.Effect.Keeps.{
  IsFrame, Keeps, Keeps-bind, Keeps-call, Keeps-ret, Keeps-raise, Keeps-lift, Keeps-gets,
  Keeps-attempt, Keeps-on_error, Keeps-panics, Keeps-either, Keeps-if, Keeps-transaction,
}
use microovn.Ovsdb.{
  SchemaStatus, expected_schema_version, get_live_schema_status, is_node_upgrade_leader,
  is_cluster_upgrade_ready, convert_if_ready, upgrade_step, upgrade_round,
}

abbrev pub is_sleep : Call → Bool
is_sleep (issue name args) = name == "time.Sleep"
is_sleep begin = false
is_sleep commit = false
is_sleep clock = false
is_sleep (statement name args) = false
is_sleep (command name args) = false
is_sleep (file name args) = false

-- How often the program has waited.
unfoldable pub waits : List Call → ℕ
waits [] = 0
waits (c ∷ cs) = let rest = waits cs in if is_sleep c then suc rest else rest

-- The database stays, and waits are not forgotten.
abbrev pub Later : World → World → Type 0
Later u v = (v.db ≡ u.db) × (waits u.calls ≤ waits v.calls)

pub later : IsFrame Later
unfolding waits
later = record {
  stay = λ w. (refl, omega arith);
  join = λ u v w p q. (q.0 ∙ p.0, omega arith);
  undo = λ u v p. (refl, p.1);
  begins = λ w. (refl, omega arith);
  commits = λ w. (refl, omega arith);
}

pub call-Later : (env : Env) (c : Call) → Keeps Later (call env c)
unfolding waits
call-Later env c = Keeps-call later env c λ w. (refl, ground arith)

ruleset waiting = (
  Keeps-bind, Keeps-ret, Keeps-raise, Keeps-lift, Keeps-gets, Keeps-attempt, Keeps-on_error,
  Keeps-panics, Keeps-either, Keeps-if, Keeps-transaction, later, call-Later,
)

module _ (env : Env) where
  pub ovsdb_client-Later :
      (db : OvsdbSpec) (c r : ℕ) (args : List String) → Keeps Later (ovsdb_client env db c r args)
  unfolding ovsdb_client wait_for_db_state
  ovsdb_client-Later db c r args = search waiting depth 10

  service_exists-Later : (m s : String) → Keeps Later (service_exists env m s)
  unfolding service_exists get_service_id
  service_exists-Later m s = search waiting depth 12

  members_with-Later : (s : String) (ms : List Member) → Keeps Later (members_with env s ms)
  unfolding members_with
  members_with-Later s [] = Keeps-ret later _
  members_with-Later s (m ∷ ms) =
      Keeps-bind later _ _ (service_exists-Later m.name s)
        λ b. Keeps-bind later _ _ (members_with-Later s ms) λ rest. Keeps-ret later _

  find_service-Later : (s : String) → Keeps Later (find_service env s)
  unfolding find_service
  find_service-Later s = search (waiting, members_with-Later) depth 10

module _ (env : Env) (peers : OvsdbSpec → M (List String)) (db : OvsdbSpec) where
  pub status-Later : Keeps Later (get_live_schema_status env peers db)
  unfolding get_live_schema_status expected_schema_version
  status-Later = search (waiting, ovsdb_client-Later) depth 12

  pub leader-Later : Keeps Later (is_node_upgrade_leader env peers)
  unfolding is_node_upgrade_leader
  leader-Later = search (waiting, find_service-Later) depth 10

  module _ (members_later : Keeps Later (peers db)) where
    pub ready-Later : (target : String) → Keeps Later (is_cluster_upgrade_ready env peers db target)
    unfolding is_cluster_upgrade_ready
    ready-Later target =
        Keeps-bind later _ _ (Keeps-on_error later _ _ members_later) λ vs. Keeps-ret later _

    pub convert-Later : (target : String) → Keeps Later (convert_if_ready env peers db target)
    unfolding convert_if_ready
    convert-Later target = search (waiting, ready-Later, ovsdb_client-Later) depth 12

    pub step-Later : (s : SchemaStatus) → Keeps Later (upgrade_step env peers db s)
    unfolding upgrade_step
    step-Later s = search (waiting, leader-Later, convert-Later) depth 12

    pub round-Later : Keeps Later (upgrade_round env peers db)
    unfolding upgrade_round
    round-Later = search (waiting, status-Later, step-Later) depth 12
