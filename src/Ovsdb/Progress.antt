-- ===== src/Ovsdb/Progress.antt =====
-- The leader of an upgrade gets done.
use microovn.Prelude.{
  ℕ, zero, suc, ◌+◌, ◌≤◌, ◌==◌, String, Bool, true, false, List, [], ◌∷◌, ◌≡◌, ◌≢◌, refl, sym, ap,
  ◌∙◌, arith, all, ◌⊎◌, inl, inr, Bool-cases,
}
use microovn.Text.{format}
use microovn.Database.{Db}
use microovn.Commands.{OvsdbSpec, ovsdb_client}
use microovn.Effect.{
  Env, World, Call, issue, Result, Result-cases, Reply-cases, ok, panic, M, ret, attempt, call,
  on_error, ◌>>=◌,
}
use microovn.Effect.Keeps.{Keeps}
use microovn.Ovsdb.{
  SchemaStatus, Round, next_back_off, get_live_schema_status, is_node_upgrade_leader,
  is_cluster_upgrade_ready, convert_if_ready, upgrade_step, upgrade_round, upgrade_loop,
}
use microovn.Ovsdb.Waiting.{waits, Later, status-Later, leader-Later, ready-Later, round-Later}

module _ (env : Env) (peers : OvsdbSpec → M (List String)) (db : OvsdbSpec) where
  module _ (d : Db) (target : String) (n : ℕ) where
    -- A world with the database `d`.
    abbrev at_db : List Call → World
    at_db cs = record { db = d; calls = cs }

    module _
        (members_report : (cs : List Call)
          → n ≤ waits cs
          → (vs : List String) × ((peers db (at_db cs)).0 ≡ ok vs)
            × (all (λ v. v == target) vs ≡ true))
        (members_reply : (cs : List Call) → (peers db (at_db cs)).0 ≢ panic)
        (members_later : Keeps Later (peers db))
        (converts : (cs : List Call)
          → (s : String) × ((ovsdb_client env db 10 60
                ("convert" ∷ db.socket_url ∷ db.schema ∷ [])
                (at_db cs)).0
              ≡ ok s)) where
      ready_at : World → Result Bool
      ready_at w = (is_cluster_upgrade_ready env peers db target w).0

      in_time : (cs : List Call) → n ≤ waits cs → ready_at (at_db cs) ≡ ok true
      unfolding ready_at is_cluster_upgrade_ready ◌>>=◌ on_error ret
      in_time cs h = let (vs, p, q) = members_report cs h in ground arith

      ready-ne-panic : (cs : List Call) → ready_at (at_db cs) ≢ panic
      unfolding ready_at is_cluster_upgrade_ready ◌>>=◌ on_error ret
      ready-ne-panic cs h = elim (Result-cases (peers db (at_db cs)).0) [
        | inl (vs, p) ↦ ground arith
        | inr (inl (e, p)) ↦ ground arith
        | inr (inr p) ↦ members_reply cs p
      ]

      -- A world that has the database.
      with_db : (w : World) → w.db ≡ d → w ≡ at_db w.calls
      with_db w p = ap (λ x. record { db = x; calls = w.calls }) p

      Done : Result Round → ℕ → Type 0
      Done r k =
          (r ≡ ok Round.up_to_date)
          ⊎ (r ≡ ok Round.converted)
          ⊎ ((r ≡ ok Round.again) × (n ≤ k → ⊥))

      earlier : (r : Result Round) (j k : ℕ) → j ≤ k → Done r k → Done r j
      unfolding Done
      earlier r j k h (inl p) = inl p
      earlier r j k h (inr (inl p)) = inr (inl p)
      earlier r j k h (inr (inr (p, f))) = inr (inr (p, λ g. f (omega arith)))

      convert_now :
          (cs : List Call) → Done (convert_if_ready env peers db target (at_db cs)).0 (waits cs)
      unfolding Done convert_if_ready ◌>>=◌ attempt ret ready_at
      convert_now cs = elim (Result-cases (ready_at (at_db cs))) [
        | inl (true, p) ↦
            let v = (is_cluster_upgrade_ready env peers db target (at_db cs)).1 in
            let e = with_db v ((ready-Later env peers db members_later target).at (at_db cs)).0 in
            let (s, q) = converts v.calls in
            let c = ovsdb_client env db 10 60 ("convert" ∷ db.socket_url ∷ db.schema ∷ []) in
            let r : (c v).0 ≡ ok s = ap (λ x. (c x).0) e ∙ q in inr (inl (ground arith))
        | inl (false, p) ↦ inr (inr (ground arith, λ h. (let t = in_time cs h in ground arith)))
        | inr (inl (e, p)) ↦ inr (inr (ground arith, λ h. (let t = in_time cs h in ground arith)))
        | inr (inr p) ↦ absurd (ready-ne-panic cs p)
      ]

      module _
          (knows : (cs : List Call)
            → (s : SchemaStatus) × ((get_live_schema_status env peers db (at_db cs)).0 ≡ ok s)
              × (s.target_version ≡ target))
          (leads : (cs : List Call)
            → (is_node_upgrade_leader env peers (at_db cs)).0 ≡ ok true) where
        step_now :
            (s : SchemaStatus) (cs : List Call)
            → s.target_version ≡ target
            → Done (upgrade_step env peers db s (at_db cs)).0 (waits cs)
        unfolding Done upgrade_step ◌>>=◌ attempt ret
        step_now s cs t = elim (Bool-cases s.upgrade_required) [
          | inr p ↦ inl (ground arith)
          | inl p ↦
              let l = leads cs in
              let v = (is_node_upgrade_leader env peers (at_db cs)).1 in
              let (a, b) = (leader-Later env peers db).at (at_db cs) in
              let e : v ≡ at_db v.calls = with_db v a in
              let r : (upgrade_step env peers db s (at_db cs)).0
                  ≡ (convert_if_ready env peers db target v).0 =
                rw (sym t) (ground arith) in
              let c : Done (convert_if_ready env peers db target v).0 (waits v.calls) =
                rw (ap (λ x. (convert_if_ready env peers db target x).0) e) (convert_now v.calls) in
              earlier _ (waits cs) (waits v.calls) b (rw r c)
        ]

        round_now : (w : World) → w.db ≡ d → Done (upgrade_round env peers db w).0 (waits w.calls)
        unfolding upgrade_round ◌>>=◌ attempt
        round_now w h =
            let (s, p, t) = knows w.calls in
            let e = with_db w h in
            let q : (get_live_schema_status env peers db w).0 ≡ ok s =
              ap (λ x. (get_live_schema_status env peers db x).0) e ∙ p in
            let v = (get_live_schema_status env peers db w).1 in
            let (a, b) = (status-Later env peers db).at w in
            let f : v ≡ at_db v.calls = with_db v (a ∙ h) in
            let r : (upgrade_round env peers db w).0 ≡ (upgrade_step env peers db s v).0 =
              ground arith in
            let c : Done (upgrade_step env peers db s v).0 (waits v.calls) =
              rw (ap (λ x. (upgrade_step env peers db s x).0) f) (step_now s v.calls t) in
            earlier _ (waits w.calls) (waits v.calls) b (rw r c)

        -- The world after a round and the wait behind it.
        waited : ℕ → World → World
        waited b w = record {
          db = (upgrade_round env peers db w).1.db;
          calls = issue "time.Sleep" (format b ∷ []) ∷ (upgrade_round env peers db w).1.calls;
        }

        next_round :
            (k b : ℕ) (w : World)
            → (upgrade_round env peers db w).0 ≡ ok Round.again
            → upgrade_loop env peers (suc k) b db w
              ≡ upgrade_loop env peers k (next_back_off b) db (waited b w)
        unfolding upgrade_loop ◌>>=◌ attempt call waited
        next_round k b w p =
            let v = (upgrade_round env peers db w).1 in
            elim (Reply-cases (env.respond v.calls (issue "time.Sleep" (format b ∷ [])))) [
              | inl (s, q) ↦ rw (p, q) refl
              | inr (s, q) ↦ rw (p, q) refl
            ]

        last_round :
            (k b : ℕ) (w : World) (r : Round)
            → (upgrade_round env peers db w).0 ≡ ok r
            → r ≢ Round.again
            → (upgrade_loop env peers (suc k) b db w).0 ≡ ok true
        unfolding upgrade_loop ◌>>=◌ ret
        last_round k b w Round.up_to_date p h = rw p refl
        last_round k b w Round.converted p h = rw p refl
        last_round k b w Round.again p h = absurd (h refl)

        loop_done :
            (k b : ℕ) (w : World)
            → w.db ≡ d
            → n ≤ k + waits w.calls
            → (upgrade_loop env peers (suc k) b db w).0 ≡ ok true
        unfolding Done waited waits
        loop_done zero b w h m = elim (round_now w h) [
          | inl p ↦ last_round zero b w Round.up_to_date p (λ e. cc)
          | inr (inl p) ↦ last_round zero b w Round.converted p (λ e. cc)
          | inr (inr (p, f)) ↦ absurd (f (omega arith))
        ]
        loop_done (suc k) b w h m = elim (round_now w h) [
          | inl p ↦ last_round (suc k) b w Round.up_to_date p (λ e. cc)
          | inr (inl p) ↦ last_round (suc k) b w Round.converted p (λ e. cc)
          | inr (inr (p, f)) ↦
              let (a, c) = (round-Later env peers db members_later).at w in
              rw (next_round (suc k) b w p)
                (loop_done k (next_back_off b) (waited b w) (a ∙ h) (omega arith))
        ]

        -- If, on this database, the member always leads the upgrade and learns the same target version, the
        -- conversion succeeds, and the query of the members does not panic, keeps the database and reports
        -- the target for all of them once the loop has waited n times, then the loop ends in n + 1 rounds.
        pub upgrade_loop-done :
            (b : ℕ) (cs : List Call) → (upgrade_loop env peers (suc n) b db (at_db cs)).0 ≡ ok true
        upgrade_loop-done b cs = loop_done n b (at_db cs) refl (omega arith)
