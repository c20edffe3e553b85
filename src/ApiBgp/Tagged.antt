-- ===== src/ApiBgp/Tagged.antt =====
-- Bridges that are tagged for BGP: what EnableBgpFromOVSExternalIDs does with more than one of them.
use microovn.Prelude.{
  String, true, false, Option, some, List, ◌∷◌, ◌≡◌, ◌≢◌, sym, ap, ◌∙◌, arith, inl, inr, eq_refl,
}
use microovn.Text.{◌<>◌}
use microovn.Database.{unique_members}
use microovn.Database.Services.View.{enabled}
use microovn.Types.{ExtraBgpConfig}
use microovn.Effect.{Env, World, ok, wrapf, on_error}
use microovn.Effect.Keeps.{Keeps}
use microovn.Effect.Quiet.{SameDb, quiet}
use microovn.Effect.Outcome.{>>=-ok, on_error-ok, on_error-world}
use microovn.Node.Bgp.{BgpService}
use microovn.Node.Lifecycle.{enable_service}
use microovn.Node.Lifecycle.Enable.{Enabled, enable_service-cases, enable_service-enabled}
use microovn.Bgp.Frame.Tools.{get-SameDb}
use microovn.ApiBgp.{read_range, read_bridge, enable_on_bridges}

module _ (env : Env) (bgp : BgpService) where
  read_range-SameDb : (b : String) → Keeps SameDb (read_range env bgp b)
  unfolding read_range
  read_range-SameDb b = search (quiet, get-SameDb) depth 10

  pub read_bridge-SameDb : (b : String) → Keeps SameDb (read_bridge env bgp b)
  unfolding read_bridge
  read_bridge-SameDb b = search (quiet, get-SameDb, read_range-SameDb) depth 14

  pub enable_service-members :
      (s : String) (c : Option ExtraBgpConfig) (w : World)
      → (enable_service env bgp s c w).1.db.members ≡ w.db.members
  unfolding Enabled
  enable_service-members s c w = elim (enable_service-cases env bgp s c w) [
    | inl (d, r) ↦ ap (λ db. db.members) d
    | inr (i, id, fresh, valid, inl d) ↦ ap (λ db. db.members) d
    | inr (i, id, fresh, valid, inr (d, r)) ↦ ap (λ db. db.members) d
  ]

  module _ (w : World) (unique : unique_members w.db.members ≡ true) where
    -- The first bridge of the list is enabled only if BGP is not enabled yet, and then it is.
    first_bridge :
        (b : String) (bs : List String)
        → (enable_on_bridges env bgp (b ∷ bs) w).0 ≡ ok tt
        → (enabled w.db env.name "bgp" ≡ false)
          × ((v : World) × (enabled v.db env.name "bgp" ≡ true)
              × (v.db.members ≡ w.db.members)
              × ((enable_on_bridges env bgp bs v).0 ≡ ok tt))
    unfolding enable_on_bridges
    first_bridge b bs h =
        let (config, p, q, r) = >>=-ok (read_bridge env bgp b) _ w h in
        let v = (read_bridge env bgp b w).1 in
        let same = (read_bridge-SameDb b).at w in
        let enable = enable_service env bgp "bgp" (some config) in
        let f = wrapf ("failed to enable BGP from OVS external IDs on bridge " <> b <> ": ") in
        let (u, p1, q1, r1) = >>=-ok (on_error f enable) _ v q in
        let x = on_error-world f enable v in
        let unique_v : unique_members v.db.members ≡ true = rw same unique in
        let (valid, fresh, on) =
          enable_service-enabled env bgp v unique_v "bgp" (some config) env.name "bgp"
            (on_error-ok f enable v p1) in
        (
          ap (λ db. enabled db env.name "bgp") (sym same) ∙ fresh,
          (
            (enable v).1,
            ground (arith, eq_refl env.name),
            enable_service-members "bgp" (some config) v ∙ ap (λ db. db.members) same,
            ap (λ y. (enable_on_bridges env bgp bs y).0) (sym x) ∙ q1,
          ),
        )

  -- If members have unique names and ids, EnableBgpFromOVSExternalIDs never succeeds with two or more
  -- tagged bridges, whatever the state of the node and of the host: BGP is a service that is enabled
  -- once, with all its bridges, and the loop enables it once for each bridge.
  pub enable_on_bridges-fails :
      (w : World) (b c : String) (bs : List String)
      → unique_members w.db.members ≡ true
      → (enable_on_bridges env bgp (b ∷ c ∷ bs) w).0 ≢ ok tt
  enable_on_bridges-fails w b c bs unique h =
      let (fresh, (v, on, ms, k)) = first_bridge w unique b (c ∷ bs) h in
      let (off, x) = first_bridge v (rw ms unique) c bs k in absurd (ground arith)
