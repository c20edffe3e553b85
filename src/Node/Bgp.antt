-- ===== src/Node/Bgp.antt =====
-- What a node asks of the package microovn/bgp (bgp/service.go), and what it relies on: starting and
-- stopping BGP leaves the cluster database alone.
use microovn.Prelude.{Option, ◌≡◌}
use microovn.Types.{ExtraBgpConfig}
use microovn.Effect.{M, World}

pub record BgpService : Type 0 where
  -- `bgp.EnableService`, `bgp.DisableService`
  pub enable : Option ExtraBgpConfig → M (Unit {0})
  pub disable : M (Unit {0})
  pub enable-db : (config : Option ExtraBgpConfig) (w : World) → (enable config w).1.db ≡ w.db
  pub disable-db : (w : World) → (disable w).1.db ≡ w.db
