-- ===== src/Cli/Status.antt =====
-- microovn/cmd/microovn/status.go: the report on the schemas of the OVN databases, with the types of
-- microovn/api/types/ovsdb.go.
pub mod Attention
use microovn.Prelude.{
  ℕ, String, Bool, true, false, not, ◌&&◌, ◌||◌, Option, none, some, List, [], ◌∷◌, ◌==◌, ltb, any,
  all, length, filter, map, ◌≡◌, ◌↔◌, ◌≢◌, refl, sym, ◌∙◌, arith, inl, inr, Bool-cases, eq_iff,
  eq_refl, if◌then◌else◌, ap,
}
use microovn.Text.{◌<>◌, join}
use microovn.Effect.{Result, ok, err, panic, errorf}

-- `OvsdbSchemaFetchError`
pub data FetchError : Type 0 where
  no_error generic not_supported : FetchError

-- `OvsdbSchemaVersionResult`
pub record SchemaVersionResult : Type 0 where
  pub host : String
  pub schema_version : String
  pub error : FetchError

abbrev pub has_error : SchemaVersionResult → Bool
has_error node = elim node.error [ no_error ↦ false | generic ↦ true | not_supported ↦ true ]

-- The keys of `versionSet`.
unfoldable pub distinct : List SchemaVersionResult → List String
distinct [] = []
distinct (node ∷ nodes) =
    let rest = distinct nodes in
    if any (λ v. v == node.schema_version) rest then rest else node.schema_version ∷ rest

-- `expectedVersion` after the loop, which starts with `v`.
unfoldable pub last_version : String → List SchemaVersionResult → String
last_version v [] = v
last_version v (node ∷ nodes) = last_version node.schema_version nodes

-- `ovsdbSchemaRequiresAttention`
unfoldable pub requires_attention : String → List SchemaVersionResult → Result Bool
unfolding distinct last_version
requires_attention active [] = err (errorf "list of expected schema versions is empty")
requires_attention active (node ∷ nodes) =
    if any has_error (node ∷ nodes)
    then ok true
    else if ltb 1 (length (distinct (node ∷ nodes)))
    then ok true
    else ok (not (active == last_version "0.0" (node ∷ nodes)))

-- `addrToName`, with the address if no member has it.
unfoldable pub name_at : List (String × String) → String → String
name_at [] host = host
name_at ((name, address) ∷ members) host =
    let rest = name_at members host in if address == host then name else rest

-- One line of the report.
unfoldable pub report_line : List (String × String) → SchemaVersionResult → String
unfolding name_at
report_line members node = "\t" <> name_at members node.host <> ": " <> (elim node.error [
  | generic ↦ "Error. Failed to contact member\n"
  | not_supported ↦ "Missing API. MicroOVN needs upgrade\n"
  | no_error ↦ node.schema_version <> "\n"
])

unfoldable pub report_lines : List (String × String) → List SchemaVersionResult → String
unfolding report_line
report_lines members [] = ""
report_lines members (node ∷ nodes) = report_line members node <> report_lines members nodes

-- What `printOvsdbSchemaReport` prints; the members are the names and addresses of the cluster.
unfoldable pub schema_report :
    List (String × String) → String → String → List SchemaVersionResult → String
unfolding requires_attention report_lines
schema_report members db active expected = elim (requires_attention active expected) [
  | err e ↦ "Error creating OVN " <> db <> " Database summary: " <> e.message <> "\n"
  | ok false ↦ "OVN " <> db <> ": OK (" <> active <> ")\n"
  | ok true ↦
      "OVN "
      <> db
      <> ": Upgrade or attention required!\nCurrently active schema: "
      <> active
      <> "\nCluster report (expected schema versions):\n"
      <> report_lines members expected
      <> "\n"
  | panic ↦ ""
]

-- Every member answers without an error, with the version that is active.
abbrev pub agrees : String → SchemaVersionResult → Bool
agrees active node = not (has_error node) && node.schema_version == active
