-- ===== src/Effect.antt =====
-- How the daemon acts: every function of the program that takes `ctx context.Context, s state.State`
-- is an action over the cluster database and the calls made so far to everything outside of the
-- program (SQL driver, subprocesses, file system, TLS library).
pub mod Keeps
pub mod Outcome
pub mod Quiet
pub mod Errors
pub mod Ends
use microovn.Prelude.{ℕ, String, Bool, Option, List, [], ◌∷◌, ◌≡◌, refl, ◌⊎◌, inl, inr}
use microovn.Text.{◌<>◌}
use microovn.Database.{Db}

-- A Go `error`. `status` is the HTTP status of an api.StatusError, and 0 for any other error.
pub record Error : Type 0 where
  pub status : ℕ
  pub message : String

-- `panic` is a run-time panic: a nil pointer, an index out of range.
pub data Result (A : Type 0) : Type 0 where
  ok : A → Result A
  err : Error → Result A
  panic : Result A

pub Result-cases :
    {A : Type 0} (r : Result A) → ((a : A) × (r ≡ ok a)) ⊎ ((e : Error) × (r ≡ err e)) ⊎ (r ≡ panic)
Result-cases (ok a) = inl (a, refl)
Result-cases (err e) = inr (inl (e, refl))
Result-cases panic = inr (inr refl)

-- `errors.New(m)`, and `fmt.Errorf` with `%s` or `%v`.
abbrev pub errorf : String → Error
errorf m = record { status = 0; message = m }

-- `api.StatusErrorf(status, m)`
abbrev pub status_errorf : ℕ → String → Error
status_errorf n m = record { status = n; message = m }

-- `fmt.Errorf("…: %w", e)`: the wrapped error can still be asked for its status.
abbrev pub wrapf : String → Error → Error
wrapf m e = record e { message = m <> e.message }

-- One call of something outside of the program.
pub data Call : Type 0 where
  begin commit clock : Call
  statement : String → List String → Call
  command : String → List String → Call
  file : String → List String → Call
  issue : String → List String → Call

pub data Reply : Type 0 where
  out : String → Reply
  fail : String → Reply

pub Reply-cases : (r : Reply) → ((s : String) × (r ≡ out s)) ⊎ ((m : String) × (r ≡ fail m))
Reply-cases (out s) = inl (s, refl)
Reply-cases (fail m) = inr (m, refl)

-- What `s state.State` and the host give: the member's name and address, the variables SNAP and
-- SNAP_COMMON, what net/netip finds in an address, and an answer to each call, which may depend on
-- all the calls before it. `host_of` is `netip.ParseAddrPort(a).Addr().String()`, `is_ip6` is
-- `netip.ParseAddr(a)` with `Is6()`.
pub record Env : Type 0 where
  pub name : String
  pub address : String
  pub snap : String
  pub snap_common : String
  pub host_of : String → Option String
  pub is_ip6 : String → Bool
  pub respond : List Call → Call → Reply

-- The calls made so far, the last one first.
pub record World : Type 0 where
  pub db : Db
  pub calls : List Call

abbrev pub M : Type 0 → Type 0
M A = World → Result A × World

module _ {A : Type 0} where
  unfoldable pub ret : A → M A
  ret a w = (ok a, w)

  unfoldable pub raise : Error → M A
  raise e w = (err e, w)

  unfoldable pub panics : M A
  panics w = (panic, w)

  unfoldable pub lift : Result A → M A
  lift r w = (r, w)

  -- Read the database.
  unfoldable pub gets : (Db → A) → M A
  gets f w = (ok (f w.db), w)

  -- A failure undoes what was written since `db` was read.
  abbrev pub settle : Db → Result A × World → Result A × World
  settle db (ok a, w) = (ok a, w)
  settle db (err e, w) = (err e, record w { db = db })
  settle db (panic, w) = (panic, record w { db = db })

  abbrev pub handle : Result A × World → Result (Result A) × World
  handle (ok a, w) = (ok (ok a), w)
  handle (err e, w) = (ok (err e), w)
  handle (panic, w) = (panic, w)

  -- `x, err := m`, where the code goes on after an error. A panic goes up.
  unfoldable pub attempt : M A → M (Result A)
  attempt m w = handle (m w)

unfoldable pub put : Db → M (Unit {0})
put db w = (ok tt, record w { db = db })

module _ {A B : Type 0} where
  abbrev pub continue : Result A × World → (A → M B) → Result B × World
  continue (ok a, w) f = f a w
  continue (err e, w) f = (err e, w)
  continue (panic, w) f = (panic, w)

  infixl 10 ◌>>=◌ ◌>>◌
  unfoldable pub ◌>>=◌ : M A → (A → M B) → M B
  unfolding ret raise panics lift gets attempt put
  ◌>>=◌ m f w = continue (m w) f

  abbrev pub ◌>>◌ : M A → M B → M B
  m >> n = m >>= λ _. n

-- `if err != nil { … }` after `x, err := m`.
module _ {A B : Type 0} where
  abbrev pub either : Result A → (A → M B) → (Error → M B) → M B
  either (ok a) f g = f a
  either (err e) f g = g e
  either panic f g = panics

abbrev pub answer : Reply → Result String
answer (out s) = ok s
answer (fail m) = err (errorf m)

unfoldable pub call : Env → Call → M String
call env c w = (answer (env.respond w.calls c), record w { calls = c ∷ w.calls })

abbrev pub reading : Reply → String
reading (out s) = s
reading (fail m) = ""

-- `time.Now()`, which does not fail.
unfoldable pub now : Env → M String
now env w = (ok (reading (env.respond w.calls clock)), record w { calls = clock ∷ w.calls })

module _ {A : Type 0} where
  -- `s.Database().Transaction(ctx, body)`: the writes of `body` are kept if it succeeds and the
  -- commit does, and none of them otherwise.
  unfoldable pub transaction : Env → M A → M A
  unfolding call ◌>>=◌
  transaction env body w = settle w.db ((do call env begin; a ← body; call env commit; ret a) w)

  -- The error of `m` with `f` applied.
  abbrev pub map_error : (Error → Error) → Result A × World → Result A × World
  map_error f (ok a, w) = (ok a, w)
  map_error f (err e, w) = (err (f e), w)
  map_error f (panic, w) = (panic, w)

  unfoldable pub on_error : (Error → Error) → M A → M A
  on_error f m w = map_error f (m w)
