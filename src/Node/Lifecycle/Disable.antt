-- ===== src/Node/Lifecycle/Disable.antt =====
-- Disabling services: what DisableService leaves in the cluster database, and the last central node.
use microovn.Prelude.{
  String, Bool, true, false, not, ◌&&◌, ◌==◌, length, ◌≡◌, ◌≢◌, ◌⊎◌, inl, inr, refl, ◌∙◌, sym,
  arith,
}
use microovn.Database.{id_of, unique_members}
use microovn.Database.Services.{delete_service, delete_rows}
use microovn.Database.Services.View.{enabled, enabled-delete}
use microovn.Database.Services.Ops.{delete_service-ok}
use microovn.Types.{srv_central}
use microovn.Effect.{Env, Error, World, Result-cases, ok, err, panic, ret, raise, ◌>>=◌}
use microovn.Effect.Keeps.{Keeps}
use microovn.Effect.Quiet.{SameDb, quiet}
use microovn.Effect.Outcome.{inside, transaction-ok, transaction-err, transaction-panic}
use microovn.Node.{has_service_active, find_service}
use microovn.Node.Bgp.{BgpService}
use microovn.Node.Frame.{
  has_service_active-SameDb, find_service-SameDb, leave_central-SameDb, leave_chassis-SameDb,
  deactivate_service-SameDb,
}
use microovn.Node.Queries.{members_of, has_service_active-enabled, find_service-members}
use microovn.Node.Lifecycle.{check_last_central, forget, stop_service, disable_service}

module _ (env : Env) (bgp : BgpService) where
  bgp_disable-SameDb : Keeps SameDb bgp.disable
  bgp_disable-SameDb = record { at = bgp.disable-db }

  stop_service-SameDb : (s : String) (last : Bool) → Keeps SameDb (stop_service env bgp s last)
  unfolding stop_service
  stop_service-SameDb s last =
      search
        (
          quiet, bgp_disable-SameDb, leave_central-SameDb, leave_chassis-SameDb,
          deactivate_service-SameDb,
        )
        depth 10

  check_last_central-SameDb :
      (s : String) (allow : Bool) → Keeps SameDb (check_last_central env bgp s allow)
  unfolding check_last_central
  check_last_central-SameDb s allow = search (quiet, find_service-SameDb) depth 12

  -- The check passes only if it was asked for or if this is not the last central node.
  check_central :
      (w : World) {b : Bool}
      → (check_last_central env bgp srv_central false w).0 ≡ ok b
      → length (members_of w.db srv_central) ≢ 1
  unfolding check_last_central ◌>>=◌ ret raise
  check_central w h = elim (Result-cases (find_service env srv_central w).0) [
    | inl (l, p) ↦ let q = find_service-members env srv_central w p in λ k. ground arith
    | inr (inl (e, p)) ↦ absurd (ground arith)
    | inr (inr p) ↦ absurd (ground arith)
  ]

  check_last_central-ok :
      (s : String) (allow : Bool) (w : World) {b : Bool}
      → (check_last_central env bgp s allow w).0 ≡ ok b
      → allow ≡ false
      → s ≡ srv_central
      → length (members_of w.db s) ≢ 1
  check_last_central-ok s allow w {b} h f e =
      let k : (check_last_central env bgp srv_central false w).0 ≡ ok b = rw (← e, ← f) h in
      rw e (check_central w k)

  pub forget-cases :
      (s : String) (w : World)
      → (((forget env bgp s w).0 ≡ ok tt)
          × ((forget env bgp s w).1.db ≡ delete_rows (id_of env.name w.db.members) s w.db))
        ⊎ (((forget env bgp s w).1.db ≡ w.db)
            × (((e : Error) × ((forget env bgp s w).0 ≡ err e)) ⊎ ((forget env bgp s w).0 ≡ panic)))
  forget-cases s w = elim (Result-cases (forget env bgp s w).0) [
    | inl (tt, p) ↦
        let (q, d) = transaction-ok env (delete_service env env.name s) w p in
        inl (p, d ∙ delete_service-ok env env.name s (inside w) q)
    | inr (inl (e, p)) ↦ inr (transaction-err env (delete_service env env.name s) w p, inl (e, p))
    | inr (inr p) ↦ inr (transaction-panic env (delete_service env env.name s) w p, inr p)
  ]

  -- What a run of DisableService did to the database, from the start w.
  unfoldable pub Disabled : String → Bool → World → Type 0
  Disabled s allow w =
      ((disable_service env bgp s allow w).1.db ≡ delete_rows (id_of env.name w.db.members) s w.db)
      × (enabled w.db env.name s ≡ true)
      × (allow ≡ false → s ≡ srv_central → length (members_of w.db s) ≢ 1)

  pub disable_service-cases :
      (s : String) (allow : Bool) (w : World)
      → (((disable_service env bgp s allow w).1.db ≡ w.db)
          × ((disable_service env bgp s allow w).0 ≢ ok tt))
        ⊎ Disabled s allow w
  unfolding disable_service Disabled ◌>>=◌ raise
  disable_service-cases s allow w = elim (Result-cases (has_service_active env s w).0) [
    | inl (true, p) ↦
        let v = (has_service_active env s w).1 in
        let dv = (has_service_active-SameDb env s).at w in
        let du = (check_last_central-SameDb s allow).at v in
        let u = (check_last_central env bgp s allow v).1 in
        elim (Result-cases (check_last_central env bgp s allow v).0) [
          | inl (b, q) ↦
              let x = (forget env bgp s u).1 in
              let dx = (stop_service-SameDb s b).at x in
              elim (forget-cases s u) [
                | inl (r, d) ↦ inr (
                  ground arith,
                  sym (has_service_active-enabled env s w p),
                  rw (← dv) (check_last_central-ok s allow v q),
                )
                | inr (d, inl (e, r)) ↦ inl (ground arith)
                | inr (d, inr r) ↦ inl (ground arith)
              ]
          | inr (inl (e, q)) ↦ inl (ground arith)
          | inr (inr q) ↦ inl (ground arith)
        ]
    | inl (false, p) ↦ inl (ground (arith, (has_service_active-SameDb env s).at w))
    | inr (inl (e, p)) ↦ inl (ground (arith, (has_service_active-SameDb env s).at w))
    | inr (inr p) ↦ inl (ground (arith, (has_service_active-SameDb env s).at w))
  ]

module _ (env : Env) (bgp : BgpService) (w : World)
    (unique : unique_members w.db.members ≡ true) where
  -- If members have unique names and ids, DisableService that succeeds takes the pair of this node
  -- and the service, which was there, from the table, and no other pair.
  pub disable_service-enabled :
      (s : String) (allow : Bool) (m t : String)
      → (disable_service env bgp s allow w).0 ≡ ok tt
      → (enabled w.db env.name s ≡ true)
        × (enabled (disable_service env bgp s allow w).1.db m t
            ≡ (enabled w.db m t && not (env.name == m && s == t)))
  unfolding Disabled
  disable_service-enabled s allow m t h = elim (disable_service-cases env bgp s allow w) [
    | inl (d, r) ↦ absurd (r h)
    | inr (d, e, g) ↦ (e, rw d (enabled-delete w.db env.name s m t unique))
  ]

  -- If members have unique names and ids, then whatever DisableService returns, no pair is added,
  -- and no pair but that of this node and the service is taken away.
  pub disable_service-frame :
      (s : String) (allow : Bool) (m t : String)
      → (env.name == m && s == t) ≡ false
      → enabled (disable_service env bgp s allow w).1.db m t ≡ enabled w.db m t
  unfolding Disabled
  disable_service-frame s allow m t h = elim (disable_service-cases env bgp s allow w) [
    | inl (d, r) ↦ rw d refl
    | inr (d, e, g) ↦ rw d (ground (arith, enabled-delete w.db env.name s m t unique))
  ]
