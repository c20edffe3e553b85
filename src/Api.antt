-- ===== src/Api.antt =====
-- What the endpoints under microovn/api share: the responses of microcluster's REST server, and the clients
-- of the other members.
use microovn.Prelude.{String, Bool, Option, List, [], ◌∷◌}
use microovn.Effect.{Env, Error, M, ret, call, issue, ◌>>=◌}

-- `response.SyncResponse(success, body)`, and the errors with their HTTP status.
pub data Response (A : Type 0) : Type 0 where
  sync : Bool → A → Response A
  bad_request internal_error not_found : String → Response A
  smart_error : Error → Response A

-- What microcluster and encoding/json make of the replies of the cluster and of its members: the
-- addresses of the clients, `exists` of a reply to bgp/check-interface, success and errors of a reply to
-- bgp/setup, and the certificates by host, each with those that succeeded and those that failed, of a
-- reply to the endpoint ca.
pub record Replies : Type 0 where
  pub clients : String → List String
  pub exists : String → Option Bool
  pub setup : String → Bool × List String
  pub reissued : String → List (String × (List String × List String))

module _ (env : Env) (replies : Replies) where
  -- `s.Connect().Cluster(true)`
  unfoldable pub cluster : M (List String)
  cluster = do out ← call env (issue "Cluster" ("notification" ∷ [])); ret (replies.clients out)

-- `cluster.Query` itself, before it calls its function for each of the clients.
abbrev pub query : Env → M String
query env = call env (issue "Query" [])
