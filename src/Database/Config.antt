-- ===== src/Database/Config.antt =====
-- The mapper of the table `config`, microovn/database/config.mapper.go.
pub mod Laws
pub mod Ops
use microovn.Prelude.{
  ℕ, ◌+◌, String, Bool, true, false, not, ◌&&◌, Option, none, some, List, [], ◌∷◌, map, ◌++◌, ◌==◌,
  eqb, ltb, is_none, any, filter, length, if◌then◌else◌,
}
use microovn.Database.{ConfigItem, Db, has_key}
use microovn.Effect.{
  Error, Result, ok, err, panic, Env, M, ret, raise, gets, put, lift, attempt, ◌>>=◌, ◌>>◌, call,
  statement, errorf, status_errorf, wrapf, on_error,
}

-- `ConfigItemFilter`
pub record ConfigItemFilter : Type 0 where
  pub key : Option String

pub matches : ConfigItemFilter → ConfigItem → Bool
matches f c = elim f.key [ none ↦ false | some k ↦ has_key k c ]

unfoldable pub select_config : List ConfigItemFilter → Db → List ConfigItem
unfolding matches
select_config [] db = db.config
select_config (f ∷ fs) db = filter (λ c. any (λ g. matches g c) (f ∷ fs)) db.config

statement_of : List ConfigItemFilter → String
statement_of [] = "configItemObjects"
statement_of (f ∷ []) = "configItemObjectsByKey"
statement_of (f ∷ g ∷ fs) = "getConfigItemsRaw"

args_of : List ConfigItemFilter → List String
args_of [] = []
args_of (f ∷ fs) = let rest = args_of fs in elim f.key [ none ↦ rest | some k ↦ k ∷ rest ]

pub or_missing : List ConfigItem → Result ConfigItem
or_missing [] = err (status_errorf 404 "ConfigItem not found")
or_missing (c ∷ []) = ok c
or_missing (c ∷ d ∷ rest) = err (errorf "More than one \"config\" entry matches")

pub first_id : String → List ConfigItem → Result ℕ
first_id key [] = err (status_errorf 404 "ConfigItem not found")
first_id key (c ∷ rest) = if c.key == key then ok c.id else first_id key rest

pub found : Result ℕ → Result Bool
found (ok id) = ok true
found (err e) = if eqb e.status 404 then ok false else err e
found panic = panic

abbrev pub insert_config : String → String → Db → Db
insert_config key value db = record db {
  config = db.config ++ record { id = db.next_config; key = key; value = value } ∷ [];
  next_config = db.next_config + 1;
}

-- INSERT INTO config (key, value), with UNIQUE(key)
run_insert : String → String → M ℕ
run_insert key value = do
  db ← gets (λ d. d)
  if any (has_key key) db.config
      then raise (errorf "Failed to create \"config\" entry: UNIQUE constraint failed")
      else put (insert_config key value db) >> ret db.next_config

abbrev pub delete_items : String → Db → Db
delete_items key db = record db { config = filter (λ c. not (has_key key c)) db.config }

abbrev pub rewrite_item : ℕ → String → String → ConfigItem → ConfigItem
rewrite_item id key value c =
    if eqb c.id id then record { id = c.id; key = key; value = value } else c

abbrev pub update_items : ℕ → String → String → Db → Db
update_items id key value db = record db { config = map (rewrite_item id key value) db.config }

-- UPDATE config SET key = ?, value = ? WHERE id = ?
run_update : String → String → ℕ → M ℕ
run_update key value id = do
  db ← gets (λ d. d)
  if any (λ c. not (eqb c.id id) && has_key key c) db.config
      then raise (errorf "Update \"config\" entry failed: UNIQUE constraint failed")
      else do
        put (update_items id key value db)
        ret (length (filter (λ (c : ConfigItem). eqb c.id id) db.config))

module _ (env : Env) where
  -- `GetConfigItems`
  unfoldable pub get_config_items : List ConfigItemFilter → M (List ConfigItem)
  unfolding statement_of args_of
  get_config_items filters =
      if any (λ (f : ConfigItemFilter). is_none f.key) filters
      then raise (errorf "Cannot filter on empty ConfigItemFilter")
      else do
        on_error (wrapf "Failed to fetch from \"config\" table: ")
            (call env (statement (statement_of filters) (args_of filters)))
        gets (select_config filters)

  -- `GetConfigItem`
  unfoldable pub get_config_item : String → M ConfigItem
  unfolding or_missing
  get_config_item key = do
    objects ←
        on_error (wrapf "Failed to fetch from \"config\" table: ")
          (get_config_items (record { key = some key } ∷ []))
    lift (or_missing objects)

  -- `GetConfigItemID`
  unfoldable pub get_config_item_id : String → M ℕ
  unfolding first_id
  get_config_item_id key = do
    on_error (wrapf "Failed to get \"config\" ID: ")
        (call env (statement "configItemID" (key ∷ [])))
    items ← gets (λ db. db.config)
    lift (first_id key items)

  -- `ConfigItemExists`
  unfoldable pub config_item_exists : String → M Bool
  unfolding found
  config_item_exists key = do r ← attempt (get_config_item_id key); lift (found r)

  -- `CreateConfigItem`
  unfoldable pub create_config_item : String → String → M ℕ
  unfolding run_insert
  create_config_item key value = do
    exists ← on_error (wrapf "Failed to check for duplicates: ") (config_item_exists key)
    if exists then raise (status_errorf 409 "This \"config\" entry already exists") else do
      on_error (wrapf "Failed to create \"config\" entry: ")
          (call env (statement "configItemCreate" (key ∷ value ∷ [])))
      run_insert key value

  -- `DeleteConfigItem`
  unfoldable pub delete_config_item : String → M (Unit {0})
  delete_config_item key = do
    on_error (wrapf "Delete \"config\": ") (call env (statement "configItemDeleteByKey" (key ∷ [])))
    db ← gets (λ d. d)
    put (delete_items key db)
    let n = length (filter (has_key key) db.config)
    if eqb n 0
        then raise (status_errorf 404 "ConfigItem not found")
        else if ltb 1 n
        then raise (errorf "Query deleted more than 1 ConfigItem row")
        else ret tt

  -- `UpdateConfigItem`
  unfoldable pub update_config_item : String → String → String → M (Unit {0})
  unfolding run_update
  update_config_item key new_key value = do
    id ← get_config_item_id key
    on_error (wrapf "Update \"config\" entry failed: ")
        (call env (statement "configItemUpdate" (new_key ∷ value ∷ [])))
    n ← run_update new_key value id
    if eqb n 1 then ret tt else raise (errorf "Query updated a number of rows other than 1")
