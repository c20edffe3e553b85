-- ===== src/ApiRefresh.antt =====
-- microovn/api/refresh.go: the endpoint env, by which a member has all members write their environment files anew.
use microovn.Prelude.{String, Bool, true, false, List, [], ◌∷◌, ◌++◌}
use microovn.Text.{◌<>◌}
use microovn.Api.{Response, sync, smart_error, Replies, cluster, query}
use microovn.Hooks.{refresh}
use microovn.Effect.{Env, M, ret, attempt, either, call, issue, ◌>>=◌, ◌>>◌}

-- `RegenerateEnvResponse`, and `NewRegenerateEnvResponse`
pub record RegenerateEnvResponse : Type 0 where
  pub success : Bool
  pub errors : List String

abbrev pub new_regenerate_env_response : RegenerateEnvResponse
new_regenerate_env_response = record { success = false; errors = [] }

module _ (env : Env) where
  -- `Refresh`, which logs the error.
  unfoldable pub refresh_logged : M (Unit {0})
  refresh_logged = do attempt (refresh env); ret tt

  -- The query of the other members, in the order of their replies: the errors.
  unfoldable pub regenerate_members : List String → M (List String)
  regenerate_members [] = ret []
  regenerate_members (url ∷ urls) = do
    r ← attempt (call env (issue "env" (url ∷ [])))
    errs ←
        either r (λ out. ret [])
          λ e. ret (
            ("Failed to contact cluster member with address \"" <> url <> "\": " <> e.message) ∷ [])
    rest ← regenerate_members urls
    ret (errs ++ rest)

  -- The end of `regenerateEnvPost`, on every member.
  unfoldable pub regenerate_local : RegenerateEnvResponse → M (Response RegenerateEnvResponse)
  regenerate_local response = do refresh_logged; ret (sync true response)

  -- `regenerateEnvPost`; the flag is whether the request is a notification.
  unfoldable pub regenerate_env_post : Replies → Bool → M (Response RegenerateEnvResponse)
  regenerate_env_post replies true = regenerate_local new_regenerate_env_response
  regenerate_env_post replies false = do
    c ← attempt (cluster env replies)
    either c
        (λ clients. do
          q ← attempt (query env)
          either q
              (λ out. do
                errs ← regenerate_members clients
                regenerate_local (record { success = true; errors = errs }))
              (λ e. ret (smart_error e)))
        (λ e. ret (sync false new_regenerate_env_response))
