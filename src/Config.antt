-- ===== src/Config.antt =====
-- microovn/config/config.go: the configuration options in the cluster database.
pub mod Map
use microovn.Prelude.{String, Bool, Option, none, some, ◌==◌, if◌then◌else◌}
use microovn.Text.{◌<>◌}
use microovn.Database.{ConfigItem}
use microovn.Database.Config.{
  config_item_exists, create_config_item, update_config_item, delete_config_item, get_config_item,
}
use microovn.Effect.{Env, Error, M, ret, ◌>>=◌, ◌>>◌, transaction, on_error, errorf}

-- `fmt.Errorf("…: %s", err)`
abbrev pub format_error : String → Error → Error
format_error m e = errorf (m <> e.message)

module _ (env : Env) where
  abbrev exists_item : String → M Bool
  exists_item key =
      on_error (format_error ("failed to check if config '" <> key <> "' exists: "))
        (config_item_exists env key)

  -- The transaction of `SetConfig`.
  upsert_item : String → String → M (Unit {0})
  upsert_item key value = do
    exists ← exists_item key
    if exists
        then update_config_item env key key value
        else create_config_item env key value >> ret tt

  -- The transaction of `GetConfig`.
  find_item : String → M (Option ConfigItem)
  find_item key = do
    exists ← exists_item key
    if exists then (do item ← get_config_item env key; ret (some item)) else ret none

  -- The transaction of `DeleteConfig`.
  remove_item : String → M (Unit {0})
  remove_item key = do
    exists ← exists_item key
    if exists then delete_config_item env key else ret tt

  -- `SetConfig`
  unfoldable pub set_config : String → String → M (Unit {0})
  unfolding upsert_item
  set_config key value =
      on_error (format_error ("failed to set config '" <> key <> "' into database: "))
        (transaction env (upsert_item key value))

  -- `GetConfig`
  unfoldable pub get_config : String → M (Option ConfigItem)
  unfolding find_item
  get_config key =
      on_error (format_error ("failed to get config '" <> key <> "' from database: "))
        (transaction env (find_item key))

  -- `DeleteConfig`
  unfoldable pub delete_config : String → M (Unit {0})
  unfolding remove_item
  delete_config key =
      on_error (format_error ("failed to delete config '" <> key <> "' from database: "))
        (transaction env (remove_item key))
