-- ===== src/Node/Queries.antt =====
-- The questions that a node asks the database: their answers are those of the abstract table.
use microovn.Prelude.{
  String, Bool, false, List, [], ◌∷◌, filter, length, ◌≡◌, ◌≤◌, ◌%◌, ◌⊎◌, ◌↔◌, arith, inl, inr,
}
use microovn.Database.{Member, Db}
use microovn.Database.Services.View.{enabled}
use microovn.Database.Services.Ops.{
  of_member, any-select_member, get_services-ok, service_exists-enabled, service_exists-db,
}
use microovn.Database.Services.{get_services, service_exists}
use microovn.Effect.{Env, World, Result-cases, ok, ret, gets, call, ◌>>=◌}
use microovn.Effect.Outcome.{inside, transaction-ok, on_error-transaction-ok, >>=-ok}
use microovn.Types.{srv_central, WarningSet}
use microovn.Node.{has_service_active, members_with, find_service, service_warnings, warnings_of}

-- The members on which a service is enabled.
abbrev pub members_of : Db → String → List Member
members_of db service = filter (λ (m : Member). enabled db m.name service) db.members

module _ (env : Env) (service : String) where
  -- HasServiceActive that succeeds tells whether the service is enabled on this node.
  pub has_service_active-enabled :
      (w : World) {b : Bool}
      → (has_service_active env service w).0 ≡ ok b
      → b ≡ enabled w.db env.name service
  unfolding has_service_active
  has_service_active-enabled w h =
      let (p, d) = transaction-ok env _ w h in
      elim (Result-cases (get_services env (of_member env.name ∷ []) (inside w)).0) [
        | inl (l, q) ↦
            let e = get_services-ok env (of_member env.name ∷ []) (inside w) q in
            unfold ◌>>=◌ ret in ground (arith, any-select_member w.db env.name service)
        | inr (inl (e, q)) ↦ absurd (unfold ◌>>=◌ in ground arith)
        | inr (inr q) ↦ absurd (unfold ◌>>=◌ in ground arith)
      ]

  members_with-ok :
      (ms : List Member) (w : World) {l : List Member}
      → (members_with env service ms w).0 ≡ ok l
      → l ≡ filter (λ (m : Member). enabled w.db m.name service) ms
  unfolding members_with ◌>>=◌ ret
  members_with-ok [] w h = ground arith
  members_with-ok (m ∷ ms) w h = elim (Result-cases (service_exists env m.name service w).0) [
    | inl (b, p) ↦
        let v = (service_exists env m.name service w).1 in
        let d = service_exists-db env m.name service w in
        elim (Result-cases (members_with env service ms v).0) [
          | inl (l, q) ↦
              ground (arith, members_with-ok ms v q, service_exists-enabled env m.name service w p)
          | inr (inl (e, q)) ↦ absurd (ground arith)
          | inr (inr q) ↦ absurd (ground arith)
        ]
    | inr (inl (e, p)) ↦ absurd (ground arith)
    | inr (inr p) ↦ absurd (ground arith)
  ]

  -- FindService that succeeds returns the members on which the service is enabled, in table order.
  pub find_service-members :
      (w : World) {l : List Member}
      → (find_service env service w).0 ≡ ok l
      → l ≡ members_of w.db service
  unfolding find_service
  find_service-members w h =
      let (p, d) = on_error-transaction-ok env _ _ w h in
      let (t, p1, q1, r1) = >>=-ok _ _ (inside w) p in
      let (ms, p2, q2, r2) = >>=-ok _ _ _ q1 in
      let f : ms ≡ w.db.members = unfold gets call in ground arith in
      let g = members_with-ok ms _ q2 in unfold gets call in ground arith

warnings_of-silent :
    (l : List Member)
    → (warnings_of l ≡ record { even_central = false; few_central = false })
      ↔ ((length l ≡ 0) ⊎ ((3 ≤ length l) × (length l % 2 ≡ 1)))
warnings_of-silent l = (λ p. ground arith, λ p. ground arith)

-- The warnings of a cluster.
module _ (env : Env) where
  -- ServiceWarnings that succeeds is silent exactly if no node runs OVN central or an odd number of at
  -- least three nodes does.
  pub service_warnings-silent :
      (w : World) {s : WarningSet}
      → (service_warnings env w).0 ≡ ok s
      → (s ≡ record { even_central = false; few_central = false }) ↔ (
          (length (members_of w.db srv_central) ≡ 0)
          ⊎ ((3 ≤ length (members_of w.db srv_central))
              × (length (members_of w.db srv_central) % 2 ≡ 1)))
  unfolding service_warnings
  service_warnings-silent w {s} h =
      let (l, p, q, r) = >>=-ok (find_service env srv_central) _ w h in
      let e = find_service-members env srv_central w p in
      let f : s ≡ warnings_of l = unfold ret in ground arith in rw (f, ← e) (warnings_of-silent l)
