-- ===== src/Cli/ClusterCommands.antt =====
-- microovn/cmd/microovn/cluster_*.go and waitready.go: the commands that microcluster carries out.
use microovn.Prelude.{ℕ, suc, String, Bool, not, List, [], ◌∷◌, ◌==◌, ltb, length, if◌then◌else◌}
use microovn.Text.{◌<>◌, format}
use microovn.Effect.{
  Env, Result, M, ret, lift, attempt, either, call, issue, on_error, wrapf, ◌>>=◌, ◌>>◌,
}
use microovn.Cli.Printing.{say}

-- A member, as `GetClusterMembers` gives it.
pub record ClusterMember : Type 0 where
  pub name : String
  pub address : String
  pub role : String
  pub certificate : String
  pub status : String

-- The result of a query: `Type`, `RowsAffected`, and the table that tablewriter makes of columns and rows.
pub record QueryResult : Type 0 where
  pub kind : String
  pub rows_affected : ℕ
  pub table : String

-- The dump and the results of `m.SQL`.
pub record SqlAnswer : Type 0 where
  pub dump : String
  pub results : List QueryResult

-- `header`
abbrev pub header : List String
header = "NAME" ∷ "ADDRESS" ∷ "ROLE" ∷ "FINGERPRINT" ∷ "STATUS" ∷ []

module _ (env : Env) where
  abbrev pub app : M (Unit {0})
  app = do call env (issue "microcluster.App" []); ret tt

  -- `cmdClusterAdd.Run`; `duration` is the printed time for which the token is valid.
  unfoldable pub cluster_add_command : String → String → M (Unit {0})
  cluster_add_command duration name = do
    app
    token ←
        on_error
          (wrapf ("unable to add server to microcluster, name \"" <> name <> "\" is taken:\n"))
          (call env (issue "NewJoinToken" (name ∷ duration ∷ [])))
    say env (token <> "\n")

  abbrev hostname : M String
  hostname =
      on_error (wrapf "failed to retrieve system hostname: ") (call env (issue "os.Hostname" []))

  -- `cmdClusterBootstrap.Run`; the address is that of the host, with the default port.
  unfoldable pub cluster_bootstrap_command : String → M (Unit {0})
  cluster_bootstrap_command address = do
    on_error (wrapf "unable to configure microovn: ") app
    name ← hostname
    call env (issue "NewCluster" (name ∷ address ∷ []))
    ret tt

  -- `cmdClusterJoin.Run`
  unfoldable pub cluster_join_command : String → String → M (Unit {0})
  cluster_join_command address token = do
    on_error (wrapf "unable to configure microcluster: ") app
    name ← hostname
    call env (issue "JoinCluster" (name ∷ address ∷ token ∷ []))
    ret tt

  -- `cmdClusterRemove.Run`
  unfoldable pub cluster_remove_command : Bool → String → M (Unit {0})
  cluster_remove_command force name = do
    app
    call env (issue "RemoveClusterMember" (name ∷ (if force then "true" else "false") ∷ []))
    ret tt

  -- `cmdWaitReady.Run`
  unfoldable pub waitready_command : ℕ → M (Unit {0})
  waitready_command timeout = do
    app
    call env (issue "Ready" (if ltb 0 timeout then format timeout ∷ [] else []))
    ret tt

  -- The loop of `cmdClusterList.Run`: a member without a fingerprint leaves an empty row.
  unfoldable pub member_rows : List ClusterMember → M (List (List String))
  member_rows [] = ret []
  member_rows (m ∷ ms) = do
    r ← attempt (call env (issue "CertFingerprintStr" (m.certificate ∷ [])))
    row ←
        either r (λ fingerprint. ret (m.name ∷ m.address ∷ m.role ∷ fingerprint ∷ m.status ∷ []))
          (λ e. ret [])
    rows ← member_rows ms
    ret (row ∷ rows)

  -- `cmdClusterList.Run`; `sort` and `render` are `SortColumnsNaturally` and `RenderTable` of lxd, the
  -- latter with the format.
  unfoldable pub cluster_list_command :
      (String → List ClusterMember)
      → (List (List String) → List (List String))
      → (List String → List (List String) → List ClusterMember → Result String)
      → M (Unit {0})
  cluster_list_command decode sort render = do
    app
    out ← call env (issue "GetClusterMembers" [])
    rows ← member_rows (decode out)
    table ← lift (render header (sort rows) (decode out))
    say env table

  unfoldable pub print_result : Bool → ℕ → QueryResult → M (Unit {0})
  print_result several i r = do
    if several then say env ("=> Query " <> format i <> ":\n\n") else ret tt
    if r.kind == "select"
        then say env r.table
        else say env ("Rows affected: " <> format r.rows_affected <> "\n")
    if several then say env "\n" else ret tt

  unfoldable pub print_results : Bool → ℕ → List QueryResult → M (Unit {0})
  print_results several i [] = ret tt
  print_results several i (r ∷ rs) = do print_result several i r; print_results several (suc i) rs

  abbrev run_query : (String → SqlAnswer) → String → M (Unit {0})
  run_query decode query = do
    app
    out ← call env (issue "SQL" (query ∷ []))
    let answer = decode out
    if not (answer.dump == "")
        then say env answer.dump
        else print_results (ltb 1 (length answer.results)) 0 answer.results

  abbrev help : M (Unit {0})
  help = do on_error (wrapf "unable to load help: ") (call env (issue "Help" [])); ret tt

  -- `cmdClusterSQL.Run`
  unfoldable pub cluster_sql_command : (String → SqlAnswer) → List String → M (Unit {0})
  cluster_sql_command decode [] = help
  cluster_sql_command decode (query ∷ []) = run_query decode query
  cluster_sql_command decode (query ∷ q ∷ qs) = help >> run_query decode query
