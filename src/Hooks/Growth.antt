-- ===== src/Hooks/Growth.antt =====
-- Actions that, if they succeed, add given services of this node to the table and nothing else: the rules by
-- which the hooks, which enable several services one after the other, are put together.
use microovn.Prelude.{
  String, Bool, true, false, ◌&&◌, ◌||◌, Option, List, [], ◌∷◌, ◌++◌, ◌==◌, any, any-append,
  if◌then◌else◌, ◌≡◌, refl, ap, ◌∙◌, arith,
}
use microovn.Database.{Db, unique_members}
use microovn.Database.Services.View.{enabled}
use microovn.Types.{ExtraBgpConfig}
use microovn.Effect.{Env, World, Error, ok, M, ret, on_error, ◌>>=◌}
use microovn.Effect.Keeps.{Keeps}
use microovn.Effect.Quiet.{SameDb}
use microovn.Effect.Outcome.{>>=-ok, on_error-ok, on_error-world}
use microovn.Node.Bgp.{BgpService}
use microovn.Node.Lifecycle.{enable_service}
use microovn.Node.Lifecycle.Enable.{enable_service-enabled}
use microovn.ApiBgp.Tagged.{enable_service-members}

abbrev pub among : List String → String → Bool
among services t = any (λ s. s == t) services

-- The members and the services are the same.
abbrev pub SameServices : World → World → Type 0
SameServices u v = (v.db.members ≡ u.db.members) × (v.db.services ≡ u.db.services)

module _ (env : Env) (n t : String) where
  -- The members are as before, and `services` are enabled on this node, as far as (n, t) tells.
  abbrev pub Grown : List String → World → World → Type 0
  Grown services w v =
      (v.db.members ≡ w.db.members)
      × (enabled v.db n t ≡ (enabled w.db n t || (env.name == n && among services t)))

  pub record Grows {A : Type 0} (services : List String) (m : M A) : Type 0 where
    pub at :
        (w : World) {a : A}
        → unique_members w.db.members ≡ true
        → (m w).0 ≡ ok a
        → Grown services w (m w).1

  pub Grown-stay : (w v : World) → v.db ≡ w.db → Grown [] w v
  Grown-stay w v d = (ap (λ db. db.members) d, ground (arith, ap (λ (db : Db). enabled db n t) d))

  pub Grows-quiet : {A : Type 0} (m : M A) → Keeps SameDb m → Grows [] m
  Grows-quiet m k = record { at = λ w u h. Grown-stay w (m w).1 (k.at w) }

  -- What leaves the members and their services as they are enables nothing.
  pub Grows-steady : {A : Type 0} (m : M A) → Keeps SameServices m → Grows [] m
  unfolding enabled
  Grows-steady m k = record {
    at = λ w u h. let (ms, rows) = k.at w in (ms, rw (ms, rows) (ground (arith)));
  }

  pub Grows-on_error :
      {A : Type 0} {ss : List String} (f : Error → Error) (m : M A)
      → Grows ss m
      → Grows ss (on_error f m)
  Grows-on_error {A} {ss} f m g = record {
    at = λ w u h. rw (on_error-world f m w) (g.at w u (on_error-ok f m w h));
  }

  pub Grows-bind :
      {A B : Type 0} {ss rs : List String} (m : M A) (f : A → M B)
      → Grows ss m
      → ((a : A) → Grows rs (f a))
      → Grows (ss ++ rs) (m >>= f)
  Grows-bind {A} {B} {ss} {rs} m f g k = record {
    at = λ w u h.
        let (a, p, q, r) = >>=-ok m f w h in
        let (ms, e) = g.at w u p in
        let (ms2, e2) = (k a).at (m w).1 (rw ms u) q in
        rw r (ms2 ∙ ms, ground (arith, any-append (λ s. s == t) ss rs));
  }

  pub Grows-if :
      (b : Bool) {s : String} (m : M (Unit {0}))
      → Grows (s ∷ []) m
      → Grows (if b then s ∷ [] else []) (if b then m else ret tt)
  unfolding ret
  Grows-if true m g = g
  Grows-if false m g = record { at = λ w u h. Grown-stay w w refl }

  pub Grows-branch :
      {A : Type 0} {ss : List String} (b : Bool) (m k : M A)
      → Grows ss m
      → Grows ss k
      → Grows ss (if b then m else k)
  Grows-branch true m k g h = g
  Grows-branch false m k g h = h

  module _ (bgp : BgpService) where
    pub Grows-enable :
        (s : String) (c : Option ExtraBgpConfig) → Grows (s ∷ []) (enable_service env bgp s c)
    Grows-enable s c = record {
      at = λ w u h. (
        enable_service-members env bgp s c w,
        ground (arith, (enable_service-enabled env bgp w u s c n t h).2),
      );
    }

    -- To enable another service does not show.
    pub Grows-other :
        (s : String) (c : Option ExtraBgpConfig)
        → s == t ≡ false
        → Grows [] (enable_service env bgp s c)
    Grows-other s c x = record {
      at = λ w u h. (
        enable_service-members env bgp s c w,
        ground (arith, (enable_service-enabled env bgp w u s c n t h).2),
      );
    }
