-- ===== src/Ovsdb/Rounds.antt =====
-- The rounds of an upgrade: when a database is converted.
use microovn.Prelude.{String, all, ◌==◌, true, false, List, ◌≡◌, arith, inl, inr, Bool-cases}
use microovn.Commands.{OvsdbSpec}
use microovn.Effect.{Env, World, Result-cases, ok, M, ret, on_error, attempt, ◌>>=◌}
use microovn.Node.Queries.{members_of}
use microovn.Types.{srv_central}
use microovn.Ovsdb.Leader.{is_least, leader_least}
use microovn.Ovsdb.{
  SchemaStatus, Round, is_node_upgrade_leader, is_cluster_upgrade_ready, convert_if_ready,
  upgrade_step,
}

module _ (env : Env) (peers : OvsdbSpec → M (List String)) (db : OvsdbSpec) where
  ready-versions :
      (target : String) (w : World)
      → (is_cluster_upgrade_ready env peers db target w).0 ≡ ok true
      → (vs : List String) × ((peers db w).0 ≡ ok vs) × (all (λ v. v == target) vs ≡ true)
  unfolding is_cluster_upgrade_ready ◌>>=◌ on_error ret
  ready-versions target w h = elim (Result-cases (peers db w).0) [
    | inl (vs, p) ↦ (vs, p, ground arith)
    | inr (inl (e, p)) ↦ absurd (ground arith)
    | inr (inr p) ↦ absurd (ground arith)
  ]

  -- A step converts only if the database is outdated, this node is the member with the least id among those that
  -- run OVN central, and the query of the members was answered with versions that are all the one to convert to.
  pub upgrade_step-converted :
      (status : SchemaStatus) (w : World)
      → (upgrade_step env peers db status w).0 ≡ ok Round.converted
      → (status.upgrade_required ≡ true)
        × (is_least env.name (members_of w.db srv_central) ≡ true)
        × ((vs : List String) × ((peers db (is_node_upgrade_leader env peers w).1).0 ≡ ok vs)
            × (all (λ v. v == status.target_version) vs ≡ true))
  unfolding upgrade_step convert_if_ready ◌>>=◌ ret attempt
  upgrade_step-converted status w h = elim (Bool-cases status.upgrade_required) [
    | inr a ↦ absurd (ground arith)
    | inl a ↦ elim (Result-cases (is_node_upgrade_leader env peers w).0) [
      | inl (false, p) ↦ absurd (ground arith)
      | inl (true, p) ↦
          let v = (is_node_upgrade_leader env peers w).1 in
          elim (Result-cases (is_cluster_upgrade_ready env peers db status.target_version v).0) [
            | inl (true, q) ↦
                (a, leader_least env peers w p, ready-versions status.target_version v q)
            | inl (false, q) ↦ absurd (ground arith)
            | inr (inl (e, q)) ↦ absurd (ground arith)
            | inr (inr q) ↦ absurd (ground arith)
          ]
      | inr (inl (e, p)) ↦ absurd (ground arith)
      | inr (inr p) ↦ absurd (ground arith)
    ]
  ]
