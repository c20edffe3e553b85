-- ===== src/Node/Lifecycle/Enable.antt =====
-- Enabling services: what EnableService leaves in the cluster database.
use microovn.Prelude.{
  ℕ, String, true, false, ◌&&◌, ◌||◌, Option, some, ◌==◌, ◌≡◌, ◌≢◌, ◌⊎◌, inl, inr, refl, ap, ◌∙◌,
  arith, Bool-cases,
}
use microovn.Database.{id_of, unique_members}
use microovn.Database.Services.{create_service, insert_service, delete_rows}
use microovn.Database.Services.View.{enabled, enabled-insert, enabled-delete}
use microovn.Database.Services.Ops.{create_service-ok}
use microovn.Types.{ExtraBgpConfig, check_valid_service}
use microovn.Environment.{generate_environment}
use microovn.Effect.{Env, World, Result-cases, ok, ret, raise, attempt, on_error, ◌>>=◌}
use microovn.Effect.Keeps.{Keeps}
use microovn.Effect.Quiet.{SameDb, quiet}
use microovn.Effect.Outcome.{inside, transaction-ok, transaction-err, transaction-panic}
use microovn.Node.{has_service_active}
use microovn.Node.Bgp.{BgpService}
use microovn.Node.Frame.{
  has_service_active-SameDb, join_central-SameDb, join_chassis-SameDb, activate_service-SameDb,
  generate_environment-SameDb,
}
use microovn.Node.Lifecycle.{record_service, start_service, start_or_forget, enable_service}
use microovn.Node.Lifecycle.Disable.{forget-cases}

module _ (env : Env) (bgp : BgpService) where
  bgp_enable-SameDb : (c : Option ExtraBgpConfig) → Keeps SameDb (bgp.enable c)
  bgp_enable-SameDb c = record { at = bgp.enable-db c }

  pub start_service-SameDb :
      (s : String) (c : Option ExtraBgpConfig) → Keeps SameDb (start_service env bgp s c)
  unfolding start_service
  start_service-SameDb s c =
      search
        (
          quiet, bgp_enable-SameDb, join_central-SameDb, join_chassis-SameDb,
          activate_service-SameDb,
        )
        depth 10

  -- The row stays if the service starts; if not, it is deleted, unless that fails as well.
  start_or_forget-cases :
      (s : String) (c : Option ExtraBgpConfig) (w : World)
      → ((start_or_forget env bgp s c w).1.db ≡ w.db)
        ⊎ (((start_or_forget env bgp s c w).1.db ≡ delete_rows (id_of env.name w.db.members) s w.db)
            × ((start_or_forget env bgp s c w).0 ≢ ok tt))
  unfolding start_or_forget attempt ◌>>=◌ ret raise
  start_or_forget-cases s c w =
      let v = (start_service env bgp s c w).1 in
      let d = (start_service-SameDb s c).at w in
      elim (Result-cases (start_service env bgp s c w).0) [
        | inl (tt, p) ↦ inl (ground arith)
        | inr (inl (e, p)) ↦ elim (forget-cases env bgp s v) [
          | inl (q, f) ↦ inr (ground arith, λ k. ground arith)
          | inr (f, inl (g, q)) ↦ inl (ground arith)
          | inr (f, inr q) ↦ inl (ground arith)
        ]
        | inr (inr p) ↦ inl (ground arith)
      ]

  -- Either nothing is recorded, or the pair is, or it is recorded and deleted again.
  unfoldable pub Enabled : String → Option ExtraBgpConfig → World → Type 0
  Enabled s c w =
      (i : ℕ) × (id_of env.name w.db.members ≡ some i)
      × (enabled w.db env.name s ≡ false)
      × (check_valid_service s ≡ true)
      × (((enable_service env bgp s c w).1.db ≡ insert_service i s w.db)
          ⊎ (((enable_service env bgp s c w).1.db
                ≡ delete_rows (id_of env.name w.db.members) s (insert_service i s w.db))
              × ((enable_service env bgp s c w).0 ≢ ok tt)))

  pub enable_service-cases :
      (s : String) (c : Option ExtraBgpConfig) (w : World)
      → (((enable_service env bgp s c w).1.db ≡ w.db) × ((enable_service env bgp s c w).0 ≢ ok tt))
        ⊎ Enabled s c w
  unfolding enable_service Enabled ◌>>=◌ raise on_error
  enable_service-cases s c w =
      let v = (has_service_active env s w).1 in
      let dv = (has_service_active-SameDb env s).at w in
      elim (Result-cases (has_service_active env s w).0) [
        | inl (true, p) ↦ inl (ground arith)
        | inl (false, p) ↦ elim (Bool-cases (check_valid_service s)) [
          | inl valid ↦ elim (Result-cases (record_service env bgp s v).0) [
            | inl (n, q) ↦
                let u = (record_service env bgp s v).1 in
                let (r, du) = transaction-ok env (create_service env env.name s) v q in
                let (i, id, ins, fresh) = create_service-ok env env.name s (inside v) r in
                let dg = (generate_environment-SameDb env).at u in
                let x = (generate_environment env u).1 in
                let eq : x.db ≡ insert_service i s w.db =
                  dg ∙ du ∙ ins ∙ ap (insert_service i s) dv in
                inr (
                  i,
                  rw (← dv) id,
                  rw (← dv) fresh,
                  valid,
                  elim (Result-cases (generate_environment env u).0) [
                    | inl (t, g) ↦ elim (start_or_forget-cases s c x) [
                      | inl k ↦ inl (ground arith)
                      | inr (k, z) ↦ inr (ground arith, λ h. z (ground arith))
                    ]
                    | inr (inl (e, g)) ↦ inl (ground arith)
                    | inr (inr g) ↦ inl (ground arith)
                  ],
                )
            | inr (inl (e, q)) ↦
                let du = transaction-err env (create_service env env.name s) v q in
                inl (ground arith)
            | inr (inr q) ↦
                let du = transaction-panic env (create_service env env.name s) v q in
                inl (ground arith)
          ]
          | inr invalid ↦ inl (ground arith)
        ]
        | inr (inl (e, p)) ↦ inl (ground arith)
        | inr (inr p) ↦ inl (ground arith)
      ]

module _ (env : Env) (bgp : BgpService) (w : World)
    (unique : unique_members w.db.members ≡ true) where
  -- If members have unique names and ids, EnableService that succeeds was asked for a known service
  -- that was not enabled on this node, and adds the pair of the two to the table, and no other.
  pub enable_service-enabled :
      (s : String) (c : Option ExtraBgpConfig) (m t : String)
      → (enable_service env bgp s c w).0 ≡ ok tt
      → (check_valid_service s ≡ true)
        × (enabled w.db env.name s ≡ false)
        × (enabled (enable_service env bgp s c w).1.db m t
            ≡ (enabled w.db m t || (env.name == m && s == t)))
  unfolding Enabled
  enable_service-enabled s c m t h = elim (enable_service-cases env bgp s c w) [
    | inl (d, r) ↦ absurd (r h)
    | inr (i, id, fresh, valid, inl d) ↦
        (valid, fresh, rw d (enabled-insert w.db env.name s m t i unique id))
    | inr (i, id, fresh, valid, inr (d, r)) ↦ absurd (r h)
  ]

  -- If members have unique names and ids, then whatever EnableService returns, the pairs of other
  -- nodes and of other services are as before.
  pub enable_service-frame :
      (s : String) (c : Option ExtraBgpConfig) (m t : String)
      → (env.name == m && s == t) ≡ false
      → enabled (enable_service env bgp s c w).1.db m t ≡ enabled w.db m t
  unfolding Enabled
  enable_service-frame s c m t h = elim (enable_service-cases env bgp s c w) [
    | inl (d, r) ↦ rw d refl
    | inr (i, id, fresh, valid, inl d) ↦
        rw d (ground (arith, enabled-insert w.db env.name s m t i unique id))
    | inr (i, id, fresh, valid, inr (d, r)) ↦ rw d (
        ground (
          arith,
          enabled-delete (insert_service i s w.db) env.name s m t unique,
          enabled-insert w.db env.name s m t i unique id,
        ))
  ]
