-- ===== src/Database.antt =====
-- The tables of the cluster database (microovn/database/schema.go) and the records that the mapper
-- reads from them (database/service.go, database/config.go). `core_cluster_members` belongs to
-- microcluster: the program reads its columns id, name and address.
pub mod Schema
pub mod Services
pub mod Config
use microovn.Prelude.{
  ℕ, String, Bool, true, false, ◌&&◌, ◌||◌, not, Option, none, some, List, [], ◌∷◌, ◌==◌, eqb,
  is_none, any, if◌then◌else◌,
}

-- `CoreClusterMember`: a row of core_cluster_members.
pub record Member : Type 0 where
  pub id : ℕ
  pub name : String
  pub address : String

-- A row of the table `services`.
pub record ServiceRow : Type 0 where
  pub id : ℕ
  pub member_id : ℕ
  pub service : String

-- `Service`: a row of `services` joined with the name of its member.
pub record Service : Type 0 where
  pub id : ℕ
  pub member : String
  pub service : String

-- `ConfigItem`: a row of the table `config`.
pub record ConfigItem : Type 0 where
  pub id : ℕ
  pub key : String
  pub value : String

-- The last two fields are the AUTOINCREMENT counters of the two tables.
pub record Db : Type 0 where
  pub members : List Member
  pub services : List ServiceRow
  pub config : List ConfigItem
  pub next_service : ℕ
  pub next_config : ℕ

-- SELECT id FROM core_cluster_members WHERE name = ?
unfoldable pub id_of : String → List Member → Option ℕ
id_of name [] = none
id_of name (m ∷ ms) = if m.name == name then some m.id else id_of name ms

-- The name that a join on the primary key finds.
unfoldable pub name_of : ℕ → List Member → Option String
name_of id [] = none
name_of id (m ∷ ms) = if eqb m.id id then some m.name else name_of id ms

-- The key of `core_cluster_members` and its UNIQUE(name).
unfoldable pub unique_members : List Member → Bool
unfolding id_of name_of
unique_members [] = true
unique_members (m ∷ ms) =
    is_none (id_of m.name ms) && is_none (name_of m.id ms) && unique_members ms

abbrev pub same_row : ℕ → String → ServiceRow → Bool
same_row i s r = eqb r.member_id i && r.service == s

abbrev pub has_key : String → ConfigItem → Bool
has_key k c = c.key == k
