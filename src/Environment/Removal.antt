-- ===== src/Environment/Removal.antt =====
-- CleanupPaths of microovn/ovn/environment/environment.go: what it has backed up before it removes something.
use microovn.Prelude.{
  ◌++◌, append_assoc, ap, sym, String, Bool, true, false, List, [], ◌∷◌, ◌==◌, any, ◌≡◌, refl, ◌∙◌,
  arith, inl, inr,
}
use microovn.Effect.{
  Env, World, Result-cases, Reply-cases, ok, out, Call, file, M, ret, raise, attempt, now, call,
  ◌>>=◌, on_error, clock, begin, commit, reading,
}
use microovn.Text.{◌<>◌}
use microovn.Effect.Keeps.{
  IsFrame, Keeps, Keeps-bind, Keeps-call, Keeps-now, Keeps-ret, Keeps-attempt, Keeps-on_error,
  Keeps-either,
}
use microovn.Paths.{backup_dirs, required_dirs, join_path}
use microovn.Environment.{each_error, backup, make_backup, cleanup_paths, base_name, remove_dir}
use microovn.Environment.Cleanup.{moves}

abbrev pub is_removal : Call → Bool
is_removal (file op args) = op == "remove_all"
is_removal c = false

abbrev pub removed : World → Bool
removed w = any is_removal w.calls

-- Nothing is removed.
abbrev NoRemoval : World → World → Type 0
NoRemoval u v = removed v ≡ removed u

no_removal : IsFrame NoRemoval
no_removal = record {
  stay = λ w. refl;
  join = λ u v w p q. q ∙ p;
  undo = λ u v p. p;
  begins = λ w. refl;
  commits = λ w. refl;
}

abbrev pub mkdir : String → Call
mkdir path = file "mkdir" (path ∷ "0750" ∷ [])

abbrev pub backup_path : Env → String → String
backup_path env time = join_path (env.snap_common ∷ ("backup_" <> time) ∷ [])

abbrev pub backup_of : String → String → String
backup_of path dir = join_path (path ∷ base_name dir ∷ [])

-- From the calls `cs` on, the calls that move the directories into `path` succeed, one after the other.
unfoldable pub AllMoved : Env → String → List String → List Call → Type 0
AllMoved env path [] cs = Unit {0}
AllMoved env path (dir ∷ dirs) cs =
    ((s : String) × (env.respond cs (moves dir (backup_of path dir)) ≡ out s))
    × AllMoved env path dirs (moves dir (backup_of path dir) ∷ cs)

-- The calls made so far are followed by others.
abbrev Extends : World → World → Type 0
Extends u v = (rest : List Call) × (v.calls ≡ rest ++ u.calls)

extends : IsFrame Extends
extends = record {
  stay = λ w. ([], refl);
  join = λ u v w p q.
      (q.0 ++ p.0, q.1 ∙ ap (λ cs. q.0 ++ cs) p.1 ∙ sym (append_assoc q.0 p.0 u.calls));
  undo = λ u v p. p;
  begins = λ w. (begin ∷ [], refl);
  commits = λ w. (commit ∷ [], refl);
}

-- The calls that move the directories into `path`, made after the calls `cs`.
abbrev pub after_moves : String → List String → List Call → List Call
after_moves path [] cs = cs
after_moves path (dir ∷ dirs) cs = after_moves path dirs (moves dir (backup_of path dir) ∷ cs)

module _ (env : Env) where
  backup-Keeps : (path dir : String) → Keeps NoRemoval (backup env path dir)
  unfolding backup
  backup-Keeps path dir =
      Keeps-bind no_removal _ _ (Keeps-call no_removal env _ (λ w. refl))
        (λ a. Keeps-ret no_removal tt)

  each_error-Keeps :
      {R : World → World → Type 0} (F : IsFrame R) (f : String → M (Unit {0})) (xs : List String)
      → ((x : String) → Keeps R (f x))
      → Keeps R (each_error env f xs)
  unfolding each_error
  each_error-Keeps F f [] k = Keeps-ret F []
  each_error-Keeps F f (x ∷ xs) k = Keeps-bind F _ _ (Keeps-attempt F (f x) (k x)) λ r.
      Keeps-bind F _ _ (each_error-Keeps F f xs k)
        λ rest. Keeps-either F r _ _ (λ u. Keeps-ret F rest) λ e. Keeps-ret F _

  remove_dirs-Extends : (dirs : List String) → Keeps Extends (each_error env (remove_dir env) dirs)
  unfolding remove_dir
  remove_dirs-Extends dirs = each_error-Keeps extends _ dirs λ dir.
      Keeps-bind extends _ _
        (Keeps-on_error extends _ _ (Keeps-call extends env _ (λ w. (_ ∷ [], refl))))
        λ a. Keeps-ret extends tt

  make_backup-Keeps : Keeps NoRemoval (make_backup env)
  unfolding make_backup
  make_backup-Keeps = Keeps-bind no_removal _ _ (Keeps-now no_removal env (λ w. refl)) λ time.
      Keeps-bind no_removal _ _
        (Keeps-on_error no_removal _ _ (Keeps-call no_removal env _ (λ w. refl)))
        λ a. each_error-Keeps no_removal _ _ (backup-Keeps _)

  backup-moved :
      (path dir : String) (w : World)
      → (backup env path dir w).0 ≡ ok tt
      → (s : String) × (env.respond w.calls (moves dir (backup_of path dir)) ≡ out s)
        × ((backup env path dir w).1.calls ≡ moves dir (backup_of path dir) ∷ w.calls)
  unfolding backup ◌>>=◌ call ret
  backup-moved path dir w h =
      elim (Reply-cases (env.respond w.calls (moves dir (backup_of path dir)))) [
        | inl (s, p) ↦ (s, p, ground arith)
        | inr (m, p) ↦ absurd (ground arith)
      ]

  backups-AllMoved :
      (path : String) (dirs : List String) (w : World)
      → (each_error env (backup env path) dirs w).0 ≡ ok []
      → AllMoved env path dirs w.calls
        × ((each_error env (backup env path) dirs w).1.calls ≡ after_moves path dirs w.calls)
  unfolding each_error ◌>>=◌ attempt ret AllMoved
  backups-AllMoved path [] w h = (tt, refl)
  backups-AllMoved path (dir ∷ dirs) w h =
      let v = (backup env path dir w).1 in
      elim (Result-cases (backup env path dir w).0) [
        | inl (tt, p) ↦
            let (s, q, c) = backup-moved path dir w p in
            elim (Result-cases (each_error env (backup env path) dirs v).0) [
              | inl (l, r) ↦
                  let (moved, made) = backups-AllMoved path dirs v (ground arith) in
                  (((s, q), rw (← c) moved), ground (arith, ap (after_moves path dirs) c))
              | inr (inl (e, r)) ↦ absurd (ground arith)
              | inr (inr r) ↦ absurd (ground arith)
            ]
        | inr (inl (e, p)) ↦ elim (Result-cases (each_error env (backup env path) dirs v).0) [
          | inl (l, r) ↦ absurd (ground arith)
          | inr (inl (f, r)) ↦ absurd (ground arith)
          | inr (inr r) ↦ absurd (ground arith)
        ]
        | inr (inr p) ↦ absurd (ground arith)
      ]

  -- The new directory, named for the time.
  abbrev pub target_path : World → String
  target_path w = backup_path env (reading (env.respond w.calls clock))

  -- In a run from `w` to `v`, the directory was made and all of the directories were moved into it.
  unfoldable pub BackedUp : World → World → Type 0
  BackedUp w v =
      ((s : String) × (env.respond (clock ∷ w.calls) (mkdir (target_path w)) ≡ out s))
      × AllMoved env (target_path w) (backup_dirs env) (mkdir (target_path w) ∷ clock ∷ w.calls)
      × ((rest : List Call) × (v.calls
            ≡ rest
              ++ after_moves (target_path w) (backup_dirs env)
                  (mkdir (target_path w) ∷ clock ∷ w.calls)))

  make_backup-BackedUp :
      (w v : World) → (make_backup env w).0 ≡ ok [] → Extends (make_backup env w).1 v → BackedUp w v
  unfolding make_backup now call on_error ◌>>=◌ BackedUp
  make_backup-BackedUp w v h (rest, x) =
      let made = record w { calls = mkdir (target_path w) ∷ clock ∷ w.calls } in
      elim (Reply-cases (env.respond (clock ∷ w.calls) (mkdir (target_path w)))) [
        | inl (s, p) ↦
            let (moved, calls) =
              backups-AllMoved (target_path w) (backup_dirs env) made (ground arith) in
            let e : (make_backup env w).1.calls
                ≡ after_moves (target_path w) (backup_dirs env) made.calls =
              rw p calls in
            ((s, p), moved, (rest, x ∙ ap (λ cs. rest ++ cs) e))
        | inr (m, p) ↦ absurd (ground arith)
      ]

  cleanup_paths-Extends : (w : World) → Extends (make_backup env w).1 (cleanup_paths env w).1
  unfolding cleanup_paths ◌>>=◌ raise ret
  cleanup_paths-Extends w =
      let v = (make_backup env w).1 in
      let (rest, x) = (remove_dirs-Extends (required_dirs env)).at v in
      elim (Result-cases (make_backup env w).0) [
        | inl ([], p) ↦
            elim (Result-cases (each_error env (remove_dir env) (required_dirs env) v).0) [
              | inl ([], q) ↦ (rest, rw (p, q) x)
              | inl (e ∷ errs, q) ↦ (rest, rw (p, q) x)
              | inr (inl (e, q)) ↦ (rest, rw (p, q) x)
              | inr (inr q) ↦ (rest, rw (p, q) x)
            ]
        | inl (e ∷ errs, p) ↦ ([], rw p refl)
        | inr (inl (e, p)) ↦ ([], rw p refl)
        | inr (inr p) ↦ ([], rw p refl)
      ]

  -- CleanupPaths removes something only if it has made the backup directory, and after it, one after the other, the
  -- calls that move each of the directories to be backed up into it, and all of these calls succeeded.
  pub cleanup_paths-removal :
      (w : World)
      → removed w ≡ false
      → removed (cleanup_paths env w).1 ≡ true
      → BackedUp w (cleanup_paths env w).1
  unfolding cleanup_paths ◌>>=◌ raise
  cleanup_paths-removal w h k =
      let keep = make_backup-Keeps.at w in
      elim (Result-cases (make_backup env w).0) [
        | inl ([], p) ↦ make_backup-BackedUp w (cleanup_paths env w).1 p (cleanup_paths-Extends w)
        | inl (e ∷ errs, p) ↦ absurd (ground arith)
        | inr (inl (e, p)) ↦ absurd (ground arith)
        | inr (inr p) ↦ absurd (ground arith)
      ]
