-- ===== src/Environment/Cleanup.antt =====
-- CleanupPaths of microovn/ovn/environment/environment.go: whether its backups can succeed.
use microovn.Prelude.{String, List, [], ◌∷◌, ◌≡◌, ◌≢◌, arith, inl, inr}
use microovn.Effect.{
  Env, World, Error, Result-cases, Reply-cases, errorf, ok, err, out, fail, Call, file, M, ret,
  raise, attempt, now, call, ◌>>=◌,
}
use microovn.Effect.Outcome.{>>=-ok}
use microovn.Paths.{data_dir, logs_dir, bird_config_dir, backup_dirs, join_path}
use microovn.Environment.{each_error, backup, make_backup, cleanup_paths, base_name}

abbrev pub moves : String → String → Call
moves dir path = file "rename" (dir ∷ path ∷ [])

module _ (env : Env) where
  backup-fails :
      (path dir : String) (w : World) {m : String}
      → env.respond w.calls (moves dir (join_path (path ∷ base_name dir ∷ []))) ≡ fail m
      → (backup env path dir w).0 ≡ err (errorf m)
  unfolding backup ◌>>=◌ call ret
  backup-fails path dir w p = ground arith

  each_error-head :
      (f : String → M (Unit {0})) (x : String) (xs : List String) (w : World) {e : Error}
      → (f x w).0 ≡ err e
      → (each_error env f (x ∷ xs) w).0 ≢ ok []
  unfolding each_error ◌>>=◌ attempt ret
  each_error-head f x xs w p h = elim (Result-cases (each_error env f xs (f x w).1).0) [
    | inl (l, q) ↦ ground arith
    | inr (inl (e, q)) ↦ ground arith
    | inr (inr q) ↦ ground arith
  ]

  cleanup_paths-backed_up :
      (w : World) → (cleanup_paths env w).0 ≡ ok tt → (make_backup env w).0 ≡ ok []
  unfolding cleanup_paths ◌>>=◌ raise
  cleanup_paths-backed_up w h = elim (Result-cases (make_backup env w).0) [
    | inl ([], p) ↦ p
    | inl (e ∷ errs, p) ↦ absurd (ground arith)
    | inr (inl (e, p)) ↦ absurd (ground arith)
    | inr (inr p) ↦ absurd (ground arith)
  ]

-- Once the data directory is renamed, there is no directory `bird` in it.
module _ (env : Env)
    (gone : (cs : List Call) (a b c s : String)
      → env.respond cs (moves (data_dir env) a) ≡ out s
      → (m : String) × (env.respond
            (moves (logs_dir env) b ∷ moves (data_dir env) a ∷ cs)
            (moves (bird_config_dir env) c)
          ≡ fail m)) where
  backups-fail :
      (path : String) (w : World) → (each_error env (backup env path) (backup_dirs env) w).0 ≢ ok []
  unfolding each_error backup ◌>>=◌ attempt call ret
  backups-fail path w h =
      let moved = λ (dir : String). join_path (path ∷ base_name dir ∷ []) in
      elim (Reply-cases (env.respond w.calls (moves (data_dir env) (moved (data_dir env))))) [
        | inl (s, p) ↦
            let (m, q) =
              gone w.calls (moved (data_dir env)) (moved (logs_dir env))
                (moved (bird_config_dir env)) s p in
            elim (Reply-cases (
              env.respond (moves (data_dir env) (moved (data_dir env)) ∷ w.calls)
                (moves (logs_dir env) (moved (logs_dir env))))) [
                  | inl (t, r) ↦ ground arith
                  | inr (n, r) ↦ ground arith
                ]
        | inr (m, p) ↦
            each_error-head env (backup env path) (data_dir env)
              (logs_dir env ∷ bird_config_dir env ∷ []) w (backup-fails env path (data_dir env) w p)
              h
      ]

  make_backup-fails : (w : World) → (make_backup env w).0 ≢ ok []
  unfolding make_backup
  make_backup-fails w h =
      let (time, p, q, r) = >>=-ok (now env) _ w h in
      let (a, p1, q1, r1) = >>=-ok _ _ (now env w).1 q in backups-fail _ _ q1

  -- The list of backups contains the data directory and then the directory `bird` in it, so on a file
  -- system where a directory is gone once the one above it is renamed CleanupPaths never succeeds.
  pub cleanup_paths-fails : (w : World) → (cleanup_paths env w).0 ≢ ok tt
  cleanup_paths-fails w h = make_backup-fails w (cleanup_paths-backed_up env w h)
