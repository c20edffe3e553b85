-- ===== src/Database/Schema.antt =====
-- microovn/database/schema.go: the updates of the schema, each of which sends one SQL script. What the scripts do
-- to the rows is left to SQLite.
use microovn.Prelude.{String, List, [], ◌∷◌, ◌==◌, if◌then◌else◌}
use microovn.Text.{◌<>◌}
use microovn.Effect.{Env, M, ret, raise, call, statement, errorf, ◌>>=◌, ◌>>◌}

-- The statements of the three updates, with the name of the table of members.
abbrev pub statement1 : String → String
statement1 table_name =
    "\nCREATE TABLE config (\n  id                            INTEGER  PRIMARY KEY AUTOINCREMENT NOT NULL,\n"
    <> "  key                           TEXT     NOT  NULL,\n"
    <> "  value                         TEXT     NOT  NULL,\n"
    <> "  UNIQUE(key)\n);\n\nCREATE TABLE services (\n  id                            INTEGER  PRIMARY KEY AUTOINCREMENT NOT NULL,\n"
    <> "  member_id                     INTEGER  NOT  NULL,\n"
    <> "  service                       TEXT     NOT  NULL,\n"
    <> "  FOREIGN KEY (member_id) REFERENCES \"" <> table_name
    <> "\" (id)\n  UNIQUE(member_id, service)\n);\n  "

abbrev pub statement2 : String → String
statement2 table_name =
    "\nPRAGMA foreign_keys = OFF;\nCREATE TABLE services_new (\n"
    <> "  id                            INTEGER  PRIMARY KEY AUTOINCREMENT NOT NULL,\n"
    <> "  member_id                     INTEGER  NOT  NULL,\n"
    <> "  service                       TEXT     NOT  NULL,\n"
    <> "  FOREIGN KEY (member_id) REFERENCES \"" <> table_name
    <> "\" (id) ON DELETE CASCADE\n  UNIQUE(member_id, service)\n"
    <> ");\n\nINSERT INTO services_new SELECT id, member_id, service FROM services;\n"
    <> "\nDROP TABLE services;\nALTER TABLE services_new RENAME TO services;\n"
    <> "PRAGMA foreign_keys = ON;\n"

abbrev pub statement3 : String
statement3 =
    "\nCREATE TABLE services_new (\n  id                            INTEGER  PRIMARY KEY AUTOINCREMENT NOT NULL,\n"
    <> "  member_id                     INTEGER  NOT  NULL,\n"
    <> "  service                       TEXT     NOT  NULL,\n"
    <> "  FOREIGN KEY (member_id) REFERENCES \"core_cluster_members\" (id) ON DELETE CASCADE\n"
    <> "  UNIQUE(member_id, service)\n);\n\nINSERT INTO services_new SELECT id, member_id, service FROM services;\n"
    <> "\nDROP TABLE services;\nALTER TABLE services_new RENAME TO services;\n" <> "\t"

-- `select_strings` is what lxd's query.SelectStrings makes of the rows.
module _ (env : Env) (select_strings : String → List String) where
  abbrev not_found : M String
  not_found = raise (errorf "no cluster members table found")

  abbrev only_name : List String → M String
  only_name [] = not_found
  only_name (name ∷ []) = if name == "" then not_found else ret name
  only_name (name ∷ other ∷ names) = not_found

  -- `getClusterTableName`
  unfoldable pub get_cluster_table_name : M String
  get_cluster_table_name = do
    out ← call env (
        statement
          "SELECT name FROM sqlite_master WHERE name = 'internal_cluster_members' OR name = 'core_cluster_members'"
          [])
    only_name (select_strings out)

  abbrev exec : String → M (Unit {0})
  exec text = do call env (statement text []); ret tt

  -- `schemaUpdate1`
  unfoldable pub schema_update1 : M (Unit {0})
  schema_update1 = do table_name ← get_cluster_table_name; exec (statement1 table_name)

  -- `schemaUpdate2`
  unfoldable pub schema_update2 : M (Unit {0})
  schema_update2 = do table_name ← get_cluster_table_name; exec (statement2 table_name)

  -- `schemaUpdate3`
  unfoldable pub schema_update3 : M (Unit {0})
  schema_update3 = exec statement3

  -- `SchemaExtensions`
  abbrev pub schema_extensions : List (M (Unit {0}))
  schema_extensions = schema_update1 ∷ schema_update2 ∷ schema_update3 ∷ []
