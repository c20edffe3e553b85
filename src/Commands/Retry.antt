-- ===== src/Commands/Retry.antt =====
-- The retries of a command.
use microovn.Prelude.{ℕ, zero, suc, ◌<◌, String, List, ◌∷◌, ◌≡◌, refl, arith, inl, inr, ◌⊎◌}
use microovn.Effect.{
  Env, World, Error, Reply-cases, out, fail, errorf, ok, err, Call, command, ret, raise, attempt,
  call, ◌>>=◌,
}
use microovn.Commands.{retry}

-- The calls of n further runs of the command.
unfoldable pub runs : ℕ → Call → List Call → List Call
runs zero c cs = cs
runs (suc n) c cs = runs n c (c ∷ cs)

module _ (env : Env) (cmd : String) (args : List String) where
  abbrev run : Call
  run = command cmd args

  -- The first n runs from here fail.
  pub AllFail : ℕ → List Call → Type 0
  AllFail zero cs = Unit {0}
  AllFail (suc n) cs = ((m : String) × (env.respond cs run ≡ fail m)) × AllFail n (run ∷ cs)

  -- A command that is tried n times either succeeds at a run before which each run failed, and is not
  -- run again, or has failed n times; the database is not touched.
  pub retry-runs :
      (n : ℕ) (last : Error) (w : World)
      → ((k : ℕ) × (s : String) × (k < n)
          × AllFail k w.calls
          × (env.respond (runs k run w.calls) run ≡ out s)
          × (retry env n cmd args last w ≡ (ok s, record w { calls = runs (suc k) run w.calls })))
        ⊎ (AllFail n w.calls
            × ((e : Error) × (retry env n cmd args last w
                  ≡ (err e, record w { calls = runs n run w.calls }))))
  unfolding retry runs AllFail ◌>>=◌ attempt call ret raise
  retry-runs zero last w = inr (tt, (last, refl))
  retry-runs (suc n) last w = elim (Reply-cases (env.respond w.calls run)) [
    | inl (s, p) ↦ inl (0, s, omega arith, tt, p, rw p refl)
    | inr (m, p) ↦ elim (retry-runs n (errorf m) (record w { calls = run ∷ w.calls })) [
      | inl (k, s, l, f, q, r) ↦ inl (suc k, s, omega arith, ((m, p), f), q, rw p r)
      | inr (f, (e, r)) ↦ inr (((m, p), f), (e, rw p r))
    ]
  ]
