-- ===== src/Node/Lifecycle/Idle.antt =====
-- A node without enabled services, as the hook of microovn/ovn/leave.go finds it.
use microovn.Prelude.{
  String, Bool, true, false, List, [], ◌∷◌, any, ◌≡◌, refl, ◌∙◌, arith, inl, inr,
}
use microovn.Database.Services.View.{enabled}
use microovn.Database.Services.{ServiceFilter, get_services}
use microovn.Types.{service_names}
use microovn.Effect.{
  Env, World, Call, command, statement, Result-cases, ret, raise, attempt, call, ◌>>=◌,
}
use microovn.Effect.Keeps.{
  IsFrame, Keeps, Keeps-bind, Keeps-call, Keeps-ret, Keeps-raise, Keeps-gets, Keeps-on_error,
  Keeps-if, Keeps-transaction,
}
use microovn.Node.{has_service_active}
use microovn.Node.Bgp.{BgpService}
use microovn.Node.Frame.{has_service_active-SameDb}
use microovn.Node.Queries.{has_service_active-enabled}
use microovn.Node.Lifecycle.{disable_service, disable_each, disable_all_services}

abbrev pub is_command : Call → Bool
is_command (command name args) = true
is_command c = false

-- A subprocess was run.
abbrev pub has_run : World → Bool
has_run w = any is_command w.calls

abbrev Silent : World → World → Type 0
Silent u v = has_run v ≡ has_run u

silent : IsFrame Silent
silent = record {
  stay = λ w. refl;
  join = λ u v w p q. q ∙ p;
  undo = λ u v p. p;
  begins = λ w. refl;
  commits = λ w. refl;
}

module _ (env : Env) where
  statement-Silent : (s : String) (args : List String) → Keeps Silent (call env (statement s args))
  statement-Silent s args = Keeps-call silent env (statement s args) (λ w. refl)

  get_services-Silent : (fs : List ServiceFilter) → Keeps Silent (get_services env fs)
  unfolding get_services
  get_services-Silent fs =
      search
        (silent, Keeps-bind, Keeps-if, Keeps-raise, Keeps-gets, Keeps-on_error, statement-Silent)
        depth 10

  has_service_active-Silent : (s : String) → Keeps Silent (has_service_active env s)
  unfolding has_service_active
  has_service_active-Silent s =
      search (silent, Keeps-bind, Keeps-ret, Keeps-transaction, get_services-Silent) depth 8

module _ (env : Env) (bgp : BgpService) where
  disable_service-idle :
      (s : String) (allow : Bool) (w : World)
      → enabled w.db env.name s ≡ false
      → ((disable_service env bgp s allow w).1.db ≡ w.db)
        × (has_run (disable_service env bgp s allow w).1 ≡ has_run w)
  unfolding disable_service ◌>>=◌ raise
  disable_service-idle s allow w h =
      let d = (has_service_active-SameDb env s).at w in
      let q = (has_service_active-Silent env s).at w in
      elim (Result-cases (has_service_active env s w).0) [
        | inl (true, p) ↦ absurd (ground (arith, has_service_active-enabled env s w p))
        | inl (false, p) ↦ (ground arith, ground arith)
        | inr (inl (e, p)) ↦ (ground arith, ground arith)
        | inr (inr p) ↦ (ground arith, ground arith)
      ]

  disable_each-idle :
      (services : List String) (w : World)
      → ((s : String) → enabled w.db env.name s ≡ false)
      → has_run (disable_each env bgp services w).1 ≡ has_run w
  unfolding disable_each ◌>>=◌ attempt ret
  disable_each-idle [] w h = refl
  disable_each-idle (s ∷ services) w h =
      let (d, q) = disable_service-idle s false w (h s) in
      let v = (disable_service env bgp s false w).1 in
      let ih = disable_each-idle services v (λ t. rw d (h t)) in
      elim (Result-cases (disable_service env bgp s false w).0) [
        | inl (tt, p) ↦ ground arith
        | inr (inl (e, p)) ↦ ground arith
        | inr (inr p) ↦ ground arith
      ]

  -- On a node that has no service enabled any more DisableAllServices runs no subprocess, so it stops
  -- no snap service and leaves no OVN database.
  pub disable_all_services-idle :
      (w : World)
      → ((s : String) → enabled w.db env.name s ≡ false)
      → has_run (disable_all_services env bgp w).1 ≡ has_run w
  unfolding disable_all_services
  disable_all_services-idle w h = disable_each-idle service_names w h
