-- ===== src/Effect/Keeps.antt =====
-- What an action does to the world, as a relation between the world before and after it. There is one
-- rule for each way to build an action, so that `search` follows the code.
use microovn.Prelude.{Bool, true, false, ◌≡◌, refl, if◌then◌else◌, ◌∷◌}
use microovn.Database.{Db}
use microovn.Effect.{
  Error, Result, ok, err, panic, Call, Env, World, M, ret, raise, panics, lift, gets, attempt,
  ◌>>=◌, call, now, clock, transaction, on_error, settle, handle, map_error, begin, commit,
  continue, either,
}

-- A relation that one may follow step by step, and that rolling a transaction back respects.
pub record IsFrame (R : World → World → Type 0) : Type 0 where
  pub stay : (w : World) → R w w
  pub join : (u v w : World) → R u v → R v w → R u w
  pub undo : (u v : World) → R u v → R u (record v { db = u.db })
  pub begins : (w : World) → R w (record w { calls = begin ∷ w.calls })
  pub commits : (w : World) → R w (record w { calls = commit ∷ w.calls })

-- Every run of `m` is a step of `R`, whatever it returns.
pub record Keeps {A : Type 0} (R : World → World → Type 0) (m : M A) : Type 0 where
  pub at : (w : World) → R w (m w).1

module _ {R : World → World → Type 0} (F : IsFrame R) {A : Type 0} where
  pub Keeps-ret : (a : A) → Keeps R (ret a)
  unfolding ret
  Keeps-ret a = record { at = F.stay }

  pub Keeps-raise : (e : Error) → Keeps R (raise {A = A} e)
  unfolding raise
  Keeps-raise e = record { at = F.stay }

  pub Keeps-panics : Keeps R (panics {A = A})
  unfolding panics
  Keeps-panics = record { at = F.stay }

  pub Keeps-lift : (r : Result A) → Keeps R (lift r)
  unfolding lift
  Keeps-lift r = record { at = F.stay }

  pub Keeps-gets : (f : Db → A) → Keeps R (gets f)
  unfolding gets
  Keeps-gets f = record { at = F.stay }

  handle_Frame : (w : World) (p : Result A × World) → R w p.1 → R w (handle p).1
  handle_Frame w (ok a, v) h = h
  handle_Frame w (err e, v) h = h
  handle_Frame w (panic, v) h = h

  pub Keeps-attempt : (m : M A) → Keeps R m → Keeps R (attempt m)
  unfolding attempt
  Keeps-attempt m k = record { at = λ w. handle_Frame w (m w) (k.at w) }

  map_error_Frame :
      (f : Error → Error) (w : World) (p : Result A × World) → R w p.1 → R w (map_error f p).1
  map_error_Frame f w (ok a, v) h = h
  map_error_Frame f w (err e, v) h = h
  map_error_Frame f w (panic, v) h = h

  pub Keeps-on_error : (f : Error → Error) (m : M A) → Keeps R m → Keeps R (on_error f m)
  unfolding on_error
  Keeps-on_error f m k = record { at = λ w. map_error_Frame f w (m w) (k.at w) }

  pub Keeps-if :
      (b : Bool) (m n : M A)
      → (b ≡ true → Keeps R m)
      → (b ≡ false → Keeps R n)
      → Keeps R (if b then m else n)
  Keeps-if true m n km kn = km refl
  Keeps-if false m n km kn = kn refl

  settle_Frame : (w : World) (p : Result A × World) → R w p.1 → R w (settle w.db p).1
  settle_Frame w (ok a, v) h = h
  settle_Frame w (err e, v) h = F.undo w v h
  settle_Frame w (panic, v) h = F.undo w v h

module _ {R : World → World → Type 0} (F : IsFrame R) {A B : Type 0} where
  continue_Frame :
      (f : A → M B)
      → ((a : A) → Keeps R (f a))
      → (w : World) (p : Result A × World) → R w p.1
      → R w (continue p f).1
  continue_Frame f k w (ok a, v) h = F.join w v (f a v).1 h ((k a).at v)
  continue_Frame f k w (err e, v) h = h
  continue_Frame f k w (panic, v) h = h

  pub Keeps-bind :
      (m : M A) (f : A → M B) → Keeps R m → ((a : A) → Keeps R (f a)) → Keeps R (m >>= f)
  unfolding ◌>>=◌
  Keeps-bind m f km kf = record { at = λ w. continue_Frame f kf w (m w) (km.at w) }

  pub Keeps-either :
      (r : Result A) (f : A → M B) (g : Error → M B)
      → ((a : A) → Keeps R (f a))
      → ((e : Error) → Keeps R (g e))
      → Keeps R (either r f g)
  Keeps-either (ok a) f g kf kg = kf a
  Keeps-either (err e) f g kf kg = kg e
  Keeps-either panic f g kf kg = Keeps-panics F

module _ {R : World → World → Type 0} (F : IsFrame R) (env : Env) where
  pub Keeps-call :
      (c : Call) → ((w : World) → R w (record w { calls = c ∷ w.calls })) → Keeps R (call env c)
  unfolding call
  Keeps-call c h = record { at = h }

  pub Keeps-now : ((w : World) → R w (record w { calls = clock ∷ w.calls })) → Keeps R (now env)
  unfolding now
  Keeps-now h = record { at = h }

module _ {R : World → World → Type 0} (F : IsFrame R) (env : Env) {A : Type 0} where
  pub Keeps-transaction : (m : M A) → Keeps R m → Keeps R (transaction env m)
  unfolding transaction
  Keeps-transaction m k = record {
    at = λ w. settle_Frame F w _ (
        (Keeps-bind F _ _ (Keeps-call F env begin F.begins) λ _.
            Keeps-bind F m _ k
              λ a. Keeps-bind F _ _ (Keeps-call F env commit F.commits) λ _. Keeps-ret F a).at
          w);
  }
