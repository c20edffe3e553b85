-- ===== src/Effect/Quiet.antt =====
-- Actions that leave the cluster database as it is, and the rules by which `search` finds that one does.
use microovn.Prelude.{◌≡◌, refl, ◌∙◌}
use microovn.Effect.{Env, World, Call, call, now}
use microovn.Effect.Keeps.{
  IsFrame, Keeps, Keeps-bind, Keeps-call, Keeps-now, Keeps-ret, Keeps-raise, Keeps-lift, Keeps-gets,
  Keeps-attempt, Keeps-on_error, Keeps-panics, Keeps-either, Keeps-if, Keeps-transaction,
}

abbrev pub SameDb : World → World → Type 0
SameDb u v = v.db ≡ u.db

pub same_db : IsFrame SameDb
same_db = record {
  stay = λ w. refl;
  join = λ u v w p q. q ∙ p;
  undo = λ u v p. refl;
  begins = λ w. refl;
  commits = λ w. refl;
}

pub call-SameDb : (env : Env) (c : Call) → Keeps SameDb (call env c)
call-SameDb env c = Keeps-call same_db env c (λ w. refl)

pub now-SameDb : (env : Env) → Keeps SameDb (now env)
now-SameDb env = Keeps-now same_db env (λ w. refl)

pub ruleset quiet = (
  Keeps-bind, Keeps-ret, Keeps-raise, Keeps-lift, Keeps-gets, Keeps-attempt, Keeps-on_error,
  Keeps-panics, Keeps-either, Keeps-if, Keeps-transaction, same_db, call-SameDb, now-SameDb,
)
