-- ===== src/Database/Config/Ops.antt =====
-- What each operation of the config mapper returns and writes.
use microovn.Prelude.{
  ℕ, String, Bool, false, Option, none, some, List, [], ◌∷◌, any, filter, ◌≡◌, refl, arith, inl,
  inr,
}
use microovn.Database.{ConfigItem, has_key}
use microovn.Effect.{Env, World, Result-cases, ok, ◌>>=◌, call, on_error}
use microovn.Database.Config.{
  matches, select_config, or_missing, first_id, found, insert_config, delete_items, update_items,
  config_item_exists, get_config_item, get_config_items, get_config_item_id, create_config_item,
  delete_config_item, update_config_item, run_insert, run_update,
}
use microovn.Database.Config.Laws.{value_of, count_id}

found-first_id :
    (key : String) (cs : List ConfigItem) → found (first_id key cs) ≡ ok (any (has_key key) cs)
unfolding found first_id
found-first_id key [] = refl
found-first_id key (c ∷ cs) = ground (arith, found-first_id key cs)

filter-key :
    (key : String) (cs : List ConfigItem)
    → filter (λ c. any (λ g. matches g c) (record { key = some key } ∷ [])) cs
      ≡ filter (has_key key) cs
unfolding matches
filter-key key [] = refl
filter-key key (c ∷ cs) = ground (arith, filter-key key cs)

-- The value of a key is that of the first row that the filter selects.
abbrev first_value : List ConfigItem → Option String
first_value [] = none
first_value (c ∷ cs) = some c.value

pub value_of-filter :
    (key : String) (cs : List ConfigItem) → value_of key cs ≡ first_value (filter (has_key key) cs)
unfolding value_of
value_of-filter key [] = refl
value_of-filter key (c ∷ cs) = ground (arith, value_of-filter key cs)

pub value_of-any :
    (key : String) (cs : List ConfigItem) → any (has_key key) cs ≡ false → value_of key cs ≡ none
unfolding value_of
value_of-any key [] h = refl
value_of-any key (c ∷ cs) h = ground (arith, value_of-any key cs)

or_missing-ok :
    (l : List ConfigItem) (c : ConfigItem) → or_missing l ≡ ok c → first_value l ≡ some c.value
unfolding or_missing
or_missing-ok [] c h = absurd (cc)
or_missing-ok (d ∷ []) c h = ground arith
or_missing-ok (d ∷ e ∷ l) c h = absurd (cc)

module _ (env : Env) (key : String) (w : World) where
  pub config_item_exists-db : (config_item_exists env key w).1.db ≡ w.db
  unfolding config_item_exists get_config_item_id ◌>>=◌ call on_error
  config_item_exists-db = ground arith

  pub config_item_exists-ok :
      {b : Bool} → (config_item_exists env key w).0 ≡ ok b → b ≡ any (has_key key) w.db.config
  unfolding config_item_exists get_config_item_id ◌>>=◌ call on_error
  config_item_exists-ok h = ground (arith, found-first_id key w.db.config)

  pub get_config_item-db : (get_config_item env key w).1.db ≡ w.db
  unfolding get_config_item get_config_items ◌>>=◌ call on_error
  get_config_item-db = ground arith

  pub get_config_item-ok :
      {c : ConfigItem}
      → (get_config_item env key w).0 ≡ ok c
      → value_of key w.db.config ≡ some c.value
  unfolding get_config_item get_config_items select_config ◌>>=◌ call on_error
  get_config_item-ok {c} h = ground (
    arith,
    filter-key key w.db.config,
    value_of-filter key w.db.config,
    or_missing-ok (filter (has_key key) w.db.config) c,
  )

  pub create_config_item-ok :
      (value : String) {n : ℕ}
      → (create_config_item env key value w).0 ≡ ok n
      → ((create_config_item env key value w).1.db ≡ insert_config key value w.db)
        × (any (has_key key) w.db.config ≡ false)
  unfolding create_config_item run_insert ◌>>=◌ call on_error
  create_config_item-ok value h = ground (arith, config_item_exists-db)

  pub delete_config_item-ok :
      (delete_config_item env key w).0 ≡ ok tt
      → (delete_config_item env key w).1.db ≡ delete_items key w.db
  unfolding delete_config_item ◌>>=◌ call on_error
  delete_config_item-ok h = ground arith

  pub update_config_item-ok :
      (value : String)
      → (update_config_item env key key value w).0 ≡ ok tt
      → (id : ℕ) × (first_id key w.db.config ≡ ok id)
        × (count_id id w.db.config ≡ 1)
        × ((update_config_item env key key value w).1.db ≡ update_items id key value w.db)
  unfolding update_config_item run_update get_config_item_id ◌>>=◌ call on_error
  update_config_item-ok value h = elim (Result-cases (first_id key w.db.config)) [
    | inl (id, p) ↦ (id, p, ground arith, ground arith)
    | inr (inl (e, p)) ↦ absurd (ground arith)
    | inr (inr p) ↦ absurd (ground arith)
  ]
