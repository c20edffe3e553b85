-- ===== src/Effect/Errors.antt =====
-- Code that goes on after an error: `allErrors = errors.Join(allErrors, err)`.
use microovn.Prelude.{Bool, List, [], ◌∷◌, ◌++◌, map}
use microovn.Text.{join, includes}
use microovn.Effect.{Error, M, ret, raise, attempt, either, errorf, ◌>>=◌}

-- Run `m`, and put its error, with `f` applied, behind the errors so far.
unfoldable pub also : {A : Type 0} → List Error → (Error → Error) → M A → M (List Error)
also errs f m = do r ← attempt m; either r (λ a. ret errs) (λ e. ret (errs ++ f e ∷ []))

-- The text of an error made by errors.Join has the texts of its parts on lines of their own.
abbrev pub joined_errors : List Error → Error
joined_errors errs = errorf (join "\n" (map (λ (e : Error). e.message) errs))

-- `return allErrors`
unfoldable pub report : List Error → M (Unit {0})
report [] = ret tt
report (e ∷ errs) = raise (joined_errors (e ∷ errs))

-- `os.IsNotExist(err)`, by the text of the error of the system.
abbrev pub is_not_exist : Error → Bool
is_not_exist e = includes e.message "no such file or directory"
