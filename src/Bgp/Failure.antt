-- ===== src/Bgp/Failure.antt =====
-- What is left behind when EnableService of microovn/bgp/service.go fails.
use microovn.Prelude.{
  ◌≡◌, ◌≢◌, refl, sym, ◌∙◌, ap, arith, String, Bool, true, false, some, List, [], ◌∷◌, ◌==◌, ◌⊎◌,
  inl, Bool-cases, if◌then◌else◌, inr,
}
use microovn.Types.{ExtraBgpConfig, validate}
use microovn.Effect.{
  Env, Error, Result-cases, ok, err, M, World, ret, raise, attempt, lift, on_error, ◌>>=◌,
}
use microovn.Bgp.Service.{
  Libraries, disable_bgp, give_up, or_give_up, select_vrf, make_bridges, select_asn, set_up,
  start_bird, enable_bgp,
}

module _ (env : Env) (libs : Libraries) where
  -- An action that fails only by running DisableService as the last thing.
  record CleansUp {A : Type 0} (m : M A) : Type 0 where
    at :
        (w : World) (e : Error)
        → (m w).0 ≡ err e
        → (v : World) × ((m w).1 ≡ (disable_bgp env libs v).1)

  give_up-world :
      (A : Type 0) (e : Error) (w : World)
      → (give_up env libs {A = A} e w).1 ≡ (disable_bgp env libs w).1
  unfolding give_up ◌>>=◌ attempt raise
  give_up-world A e w = elim (Result-cases (disable_bgp env libs w).0) [
    | inl (u, p) ↦ ground arith
    | inr (inl (f, p)) ↦ ground arith
    | inr (inr p) ↦ ground arith
  ]

  module _ {A : Type 0} where
    CleansUp-ret : (a : A) → CleansUp (ret a)
    unfolding ret
    CleansUp-ret a = record { at = λ w e h. absurd (ground arith) }

    or_give_up-CleansUp : (f : Error → Error) (m : M A) → CleansUp (or_give_up env libs f m)
    unfolding or_give_up ◌>>=◌ attempt ret
    or_give_up-CleansUp f m = record {
      at = λ w e h. elim (Result-cases (m w).0) [
        | inl (a, p) ↦ absurd (ground arith)
        | inr (inl (d, p)) ↦ ((m w).1, ground (arith, give_up-world A (f d) (m w).1))
        | inr (inr p) ↦ absurd (ground arith)
      ];
    }

  module _ {A B : Type 0} where
    CleansUp-bind :
        (m : M A) (f : A → M B) → CleansUp m → ((a : A) → CleansUp (f a)) → CleansUp (m >>= f)
    unfolding ◌>>=◌
    CleansUp-bind m f km kf = record {
      at = λ w e h. elim (Result-cases (m w).0) [
        | inl (a, p) ↦ let (v, q) = (kf a).at (m w).1 e (ground arith) in (v, ground arith)
        | inr (inl (d, p)) ↦ let (v, q) = km.at w d p in (v, ground arith)
        | inr (inr p) ↦ absurd (ground arith)
      ];
    }

  select_vrf-CleansUp : (c : ExtraBgpConfig) → CleansUp (select_vrf env libs c)
  unfolding select_vrf
  select_vrf-CleansUp c = elim (Bool-cases (c.vrf == "")) [
    | inl p ↦ rw p (or_give_up-CleansUp _ _)
    | inr p ↦ rw p (CleansUp-ret _)
  ]

  select_asn-CleansUp : (c : ExtraBgpConfig) → CleansUp (select_asn env libs c)
  unfolding select_asn
  select_asn-CleansUp c = elim (Bool-cases (c.asn == "")) [
    | inl p ↦ rw p (or_give_up-CleansUp _ _)
    | inr p ↦ rw p (CleansUp-ret _)
  ]

  make_bridges-CleansUp :
      (c : ExtraBgpConfig) (brgs : List String) → CleansUp (make_bridges env libs c brgs)
  unfolding make_bridges
  make_bridges-CleansUp c [] = or_give_up-CleansUp _ _
  make_bridges-CleansUp c (brg ∷ brgs) = or_give_up-CleansUp _ _

  CleansUp-if :
      {A : Type 0} (b : Bool) (m n : M A) → CleansUp m → CleansUp n → CleansUp (if b then m else n)
  CleansUp-if true m n km kn = km
  CleansUp-if false m n km kn = kn

  set_up-CleansUp : (c : ExtraBgpConfig) → CleansUp (set_up env libs c)
  unfolding set_up
  set_up-CleansUp c =
      search
        (
          CleansUp-bind, CleansUp-if, CleansUp-ret, or_give_up-CleansUp, select_vrf-CleansUp,
          make_bridges-CleansUp, select_asn-CleansUp,
        )
        depth 20

  started-CleansUp :
      (c : ExtraBgpConfig) → CleansUp (start_bird env libs >>= λ u. set_up env libs c)
  unfolding start_bird
  started-CleansUp c = CleansUp-bind _ _ (or_give_up-CleansUp _ _) (λ u. set_up-CleansUp c)

  enable-valid :
      (c : ExtraBgpConfig) (w : World)
      → validate c ≡ ok tt
      → enable_bgp env libs (some c) w ≡ (start_bird env libs >>= λ u. set_up env libs c) w
  unfolding enable_bgp ◌>>=◌ lift on_error
  enable-valid c w p = rw p refl

  -- If EnableService fails, either the configuration is not valid and nothing has been done at all, or
  -- DisableService has run after everything else; so no part of a redirect is left without an attempt to
  -- take it down.
  pub enable_bgp-fails :
      (c : ExtraBgpConfig) (w : World) (e : Error)
      → (enable_bgp env libs (some c) w).0 ≡ err e
      → ((validate c ≢ ok tt) × ((enable_bgp env libs (some c) w).1 ≡ w))
        ⊎ ((v : World) × ((enable_bgp env libs (some c) w).1 ≡ (disable_bgp env libs v).1))
  unfolding enable_bgp ◌>>=◌ lift on_error
  enable_bgp-fails c w e h = elim (Result-cases (validate c)) [
    | inl (u, p) ↦
        let (v, q) = (started-CleansUp c).at w e (ap (λ r. r.0) (sym (enable-valid c w p)) ∙ h) in
        inr (v, ap (λ r. r.1) (enable-valid c w p) ∙ q)
    | inr (inl (d, p)) ↦ inl (λ q. ground arith, ground arith)
    | inr (inr p) ↦ absurd (ground arith)
  ]
