-- ===== src/Effect/Outcome.antt =====
-- What a successful, and what a failed, transaction leaves in the database.
use microovn.Prelude.{◌≡◌, refl, ap, ◌∙◌, arith, ◌∷◌, inl, inr}
use microovn.Effect.{
  Error, Result-cases, ok, err, panic, Env, World, M, ◌>>=◌, begin, transaction, on_error,
}

-- The world in which the body of a transaction runs.
abbrev pub inside : World → World
inside w = record w { calls = begin ∷ w.calls }

module _ {A : Type 0} (env : Env) (m : M A) (w : World) where
  -- A transaction that succeeds has run its body, and keeps what the body wrote.
  pub transaction-ok :
      {a : A}
      → (transaction env m w).0 ≡ ok a
      → ((m (inside w)).0 ≡ ok a) × ((transaction env m w).1.db ≡ (m (inside w)).1.db)
  unfolding transaction
  transaction-ok h = ground arith

  -- A transaction that fails writes nothing.
  pub transaction-err :
      {e : Error} → (transaction env m w).0 ≡ err e → (transaction env m w).1.db ≡ w.db
  unfolding transaction
  transaction-err h = ground arith

  pub transaction-panic : (transaction env m w).0 ≡ panic → (transaction env m w).1.db ≡ w.db
  unfolding transaction
  transaction-panic h = ground arith

  pub transaction-undo :
      ((a : A) → (transaction env m w).0 ≡ ok a → ⊥) → (transaction env m w).1.db ≡ w.db
  transaction-undo h = elim (Result-cases (transaction env m w).0) [
    | inl (a, p) ↦ absurd (h a p)
    | inr (inl (e, p)) ↦ transaction-err p
    | inr (inr p) ↦ transaction-panic p
  ]

module _ {A : Type 0} (f : Error → Error) (m : M A) (w : World) where
  pub on_error-world : (on_error f m w).1 ≡ (m w).1
  unfolding on_error
  on_error-world = ground arith

  pub on_error-ok : {a : A} → (on_error f m w).0 ≡ ok a → (m w).0 ≡ ok a
  unfolding on_error
  on_error-ok h = ground arith

module _ {A : Type 0} (env : Env) (f : Error → Error) (m : M A) (w : World) where
  pub on_error-transaction-ok :
      {a : A}
      → (on_error f (transaction env m) w).0 ≡ ok a
      → ((m (inside w)).0 ≡ ok a) × ((on_error f (transaction env m) w).1.db ≡ (m (inside w)).1.db)
  on_error-transaction-ok h =
      let (r, d) = transaction-ok env m w (on_error-ok f (transaction env m) w h) in
      (r, ap (λ (v : World). v.db) (on_error-world f (transaction env m) w) ∙ d)

  -- Whatever a failed transaction returns, it leaves the database as it was.
  pub on_error-transaction-undo :
      ((a : A) → (on_error f (transaction env m) w).0 ≡ ok a → ⊥)
      → (on_error f (transaction env m) w).1.db ≡ w.db
  on_error-transaction-undo h =
      ap (λ (v : World). v.db) (on_error-world f (transaction env m) w)
      ∙ transaction-undo env m w (λ a p. h a (unfold on_error in rw p refl))

module _ {A B : Type 0} (m : M A) (f : A → M B) (w : World) where
  -- Inversion of a successful bind.
  pub >>=-ok :
      {b : B}
      → ((m >>= f) w).0 ≡ ok b
      → (a : A) × ((m w).0 ≡ ok a) × ((f a (m w).1).0 ≡ ok b) × (((m >>= f) w).1 ≡ (f a (m w).1).1)
  unfolding ◌>>=◌
  >>=-ok h = ground arith
