-- ===== src/Config/Map.antt =====
-- The options are a map from keys to values: what SetConfig, GetConfig and DeleteConfig do to it, and
-- that a failure changes nothing.
use mathlib.Core.Option
use microovn.Prelude.{
  String, true, false, Option, none, some, ◌==◌, if◌then◌else◌, ◌≡◌, ◌≢◌, ap, ◌∙◌, eq_iff, inl, inr,
  arith,
}
use microovn.Database.{ConfigItem, Db}
use microovn.Database.Config.Laws.{value_of, value_of-insert, value_of-delete, value_of-update}
use microovn.Database.Config.Ops.{
  config_item_exists-db, config_item_exists-ok, create_config_item-ok, delete_config_item-ok,
  update_config_item-ok, get_config_item-ok, get_config_item-db, value_of-any,
}
use microovn.Database.Config.{
  create_config_item, update_config_item, config_item_exists, delete_config_item, get_config_item,
}
use microovn.Effect.{Env, World, Result-cases, ok, ◌>>=◌, on_error}
use microovn.Effect.Keeps.{Keeps}
use microovn.Effect.Quiet.{SameDb, quiet}
use microovn.Effect.Outcome.{on_error-transaction-ok, on_error-transaction-undo, inside}
use microovn.Config.{upsert_item, find_item, remove_item, set_config, get_config, delete_config}

-- The value that the database holds for an option.
abbrev pub option : World → String → Option String
option w key = value_of key w.db.config

module _ (env : Env) (key value : String) (w : World) where
  upsert_item-option :
      (k : String)
      → (upsert_item env key value w).0 ≡ ok tt
      → option (upsert_item env key value w).1 k ≡ (if key == k then some value else option w k)
  unfolding upsert_item ◌>>=◌ on_error
  upsert_item-option k h = elim (Result-cases (config_item_exists env key w).0) [
    | inl (true, p) ↦
        let v = (config_item_exists env key w).1 in
        let d = config_item_exists-db env key w in
        let u : (update_config_item env key key value v).0 ≡ ok tt = ground arith in
        let (id, first, once, q) = update_config_item-ok env key v value u in
        ground (arith, value_of-update key value k id v.db.config first once)
    | inl (false, p) ↦
        let v = (config_item_exists env key w).1 in
        let d = config_item_exists-db env key w in
        elim (Result-cases (create_config_item env key value v).0) [
          | inl (n, q) ↦
              let (t, fresh) = create_config_item-ok env key v value q in
              ground (arith, value_of-insert key value k v.db.next_config v.db.config fresh)
          | inr (inl (e, q)) ↦ absurd (ground arith)
          | inr (inr q) ↦ absurd (ground arith)
        ]
    | inr (inl (e, p)) ↦ absurd (ground arith)
    | inr (inr p) ↦ absurd (ground arith)
  ]

module _ (env : Env) (key value : String) (w : World) where
  -- SetConfig that succeeds binds the key to the value and leaves every other key alone.
  pub set_config-option :
      (k : String)
      → (set_config env key value w).0 ≡ ok tt
      → option (set_config env key value w).1 k ≡ (if key == k then some value else option w k)
  unfolding set_config
  set_config-option k h =
      let (r, d) = on_error-transaction-ok env _ (upsert_item env key value) w h in
      ap (λ (b : Db). value_of k b.config) d ∙ upsert_item-option env key value (inside w) k r

  -- SetConfig that fails, at whatever call, changes no option.
  pub set_config-undo :
      (k : String)
      → (set_config env key value w).0 ≢ ok tt
      → option (set_config env key value w).1 k ≡ option w k
  unfolding set_config
  set_config-undo k h =
      ap (λ (b : Db). value_of k b.config)
        (on_error-transaction-undo env _ (upsert_item env key value) w (λ a p. h p))

module _ (env : Env) (key : String) (w : World) where
  find_item-option :
      {o : Option ConfigItem}
      → (find_item env key w).0 ≡ ok o
      → Option.map (λ (c : ConfigItem). c.value) o ≡ option w key
  unfolding find_item ◌>>=◌ on_error
  find_item-option {o} h = elim (Result-cases (config_item_exists env key w).0) [
    | inl (true, p) ↦
        let v = (config_item_exists env key w).1 in
        let d = config_item_exists-db env key w in
        elim (Result-cases (get_config_item env key v).0) [
          | inl (c, q) ↦ ground (arith, get_config_item-ok env key v q)
          | inr (inl (e, q)) ↦ absurd (ground arith)
          | inr (inr q) ↦ absurd (ground arith)
        ]
    | inl (false, p) ↦
        ground (arith, config_item_exists-ok env key w p, value_of-any key w.db.config)
    | inr (inl (e, p)) ↦ absurd (ground arith)
    | inr (inr p) ↦ absurd (ground arith)
  ]

  find_item-db : (find_item env key w).1.db ≡ w.db
  unfolding find_item ◌>>=◌ on_error
  find_item-db = elim (Result-cases (config_item_exists env key w).0) [
    | inl (b, p) ↦
        let v = (config_item_exists env key w).1 in
        ground (arith, config_item_exists-db env key w, get_config_item-db env key v)
    | inr (inl (e, p)) ↦ ground (arith, config_item_exists-db env key w)
    | inr (inr p) ↦ ground (arith, config_item_exists-db env key w)
  ]

  remove_item-option :
      (k : String)
      → (remove_item env key w).0 ≡ ok tt
      → option (remove_item env key w).1 k ≡ (if key == k then none else option w k)
  unfolding remove_item ◌>>=◌ on_error
  remove_item-option k h = elim (Result-cases (config_item_exists env key w).0) [
    | inl (true, p) ↦
        let v = (config_item_exists env key w).1 in
        let d = config_item_exists-db env key w in
        let r : (delete_config_item env key v).0 ≡ ok tt = ground arith in
        ground (arith, delete_config_item-ok env key v r, value_of-delete key "" k v.db.config)
    | inl (false, p) ↦ ground (
      arith,
      config_item_exists-db env key w,
      config_item_exists-ok env key w p,
      value_of-any key w.db.config,
      eq_iff key k,
    )
    | inr (inl (e, p)) ↦ absurd (ground arith)
    | inr (inr p) ↦ absurd (ground arith)
  ]

module _ (env : Env) where
  find_item-SameDb : (key : String) → Keeps SameDb (find_item env key)
  find_item-SameDb key = record { at = find_item-db env key }

  pub get_config-SameDb : (key : String) → Keeps SameDb (get_config env key)
  unfolding get_config
  get_config-SameDb key = search (quiet, find_item-SameDb)

module _ (env : Env) (key : String) (w : World) where
  -- GetConfig that succeeds returns the value of the key, or nothing if the key is not set, and writes
  -- nothing whatever it returns.
  pub get_config-option :
      {o : Option ConfigItem}
      → (get_config env key w).0 ≡ ok o
      → (Option.map (λ (c : ConfigItem). c.value) o ≡ option w key)
        × ((get_config env key w).1.db ≡ w.db)
  unfolding get_config
  get_config-option h =
      let (r, d) = on_error-transaction-ok env _ (find_item env key) w h in
      (find_item-option env key (inside w) r, d ∙ find_item-db env key (inside w))

  -- DeleteConfig that succeeds unbinds the key, set or not, and leaves every other key alone.
  pub delete_config-option :
      (k : String)
      → (delete_config env key w).0 ≡ ok tt
      → option (delete_config env key w).1 k ≡ (if key == k then none else option w k)
  unfolding delete_config
  delete_config-option k h =
      let (r, d) = on_error-transaction-ok env _ (remove_item env key) w h in
      ap (λ (b : Db). value_of k b.config) d ∙ remove_item-option env key (inside w) k r
