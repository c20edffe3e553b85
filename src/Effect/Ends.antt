-- ===== src/Effect/Ends.antt =====
-- How to follow an action that succeeds up to the point where it starts to write.
use microovn.Prelude.{◌≡◌, ◌∙◌}
use microovn.Database.{Db}
use microovn.Effect.{World, M, ok, ◌>>=◌}
use microovn.Effect.Keeps.{Keeps}
use microovn.Effect.Quiet.{SameDb}
use microovn.Effect.Outcome.{>>=-ok}

-- From the database `u` on, a run of `m` that succeeds ends in a world with `G`.
abbrev pub Ends : {A : Type 0} → Db → (World → Type 0) → M A → Type 0
Ends {A} u G m = (w : World) (a : A) → w.db ≡ u → (m w).0 ≡ ok a → G (m w).1

-- A step that leaves the database alone, and what comes after it.
pub Ends-bind :
    {A B : Type 0} (u : Db) (G : World → Type 0) (m : M A) (f : A → M B)
    → Keeps SameDb m
    → ((a : A) (v : World) → v.db ≡ u → (m v).0 ≡ ok a → Ends u G (f a))
    → Ends u G (m >>= f)
Ends-bind u G m f k g w b d h =
    let (a, p, q, r) = >>=-ok m f w h in rw r (g a w d p (m w).1 b (k.at w ∙ d) q)
