-- ===== src/Database/Config/Laws.antt =====
-- The contract of the table `config`: a map from keys to values.
use microovn.Prelude.{
  ℕ, ◌<◌, String, false, not, Option, none, some, List, [], ◌∷◌, map, ◌++◌, ◌==◌, eqb, eq_iff, any,
  filter, length, ◌≡◌, refl, arith, if◌then◌else◌,
}
use microovn.Database.{ConfigItem, has_key}
use microovn.Effect.{ok}
use microovn.Database.Config.{rewrite_item, first_id}

-- The first value of a key.
unfoldable pub value_of : String → List ConfigItem → Option String
value_of key [] = none
value_of key (c ∷ cs) = if c.key == key then some c.value else value_of key cs

abbrev pub count_id : ℕ → List ConfigItem → ℕ
count_id id cs = length (filter (λ (c : ConfigItem). eqb c.id id) cs)

module _ (key value : String) (k : String) where
  pub value_of-insert :
      (i : ℕ) (cs : List ConfigItem)
      → any (has_key key) cs ≡ false
      → value_of k (cs ++ record { id = i; key = key; value = value } ∷ [])
        ≡ (if key == k then some value else value_of k cs)
  unfolding value_of
  value_of-insert i [] h = refl
  value_of-insert i (c ∷ cs) h =
      ground (arith, value_of-insert i cs, eq_iff c.key key, eq_iff c.key k, eq_iff key k)

  pub value_of-delete :
      (cs : List ConfigItem)
      → value_of k (filter (λ c. not (has_key key c)) cs)
        ≡ (if key == k then none else value_of k cs)
  unfolding value_of
  value_of-delete [] = ground arith
  value_of-delete (c ∷ cs) =
      ground (arith, value_of-delete cs, eq_iff c.key key, eq_iff c.key k, eq_iff key k)

  rewrite_none :
      (id : ℕ) (cs : List ConfigItem) → count_id id cs ≡ 0 → map (rewrite_item id key value) cs ≡ cs
  rewrite_none id [] h = refl
  rewrite_none id (c ∷ cs) h = ground (arith, rewrite_none id cs)

  first_id_counted : (id : ℕ) (cs : List ConfigItem) → first_id key cs ≡ ok id → 0 < count_id id cs
  unfolding first_id
  first_id_counted id [] h = absurd (cc)
  first_id_counted id (c ∷ cs) h = ground (arith, first_id_counted id cs)

  pub value_of-update :
      (id : ℕ) (cs : List ConfigItem)
      → first_id key cs ≡ ok id
      → count_id id cs ≡ 1
      → value_of k (map (rewrite_item id key value) cs)
        ≡ (if key == k then some value else value_of k cs)
  unfolding first_id value_of
  value_of-update id [] h n = absurd (cc)
  value_of-update id (c ∷ cs) h n = ground (
    arith,
    value_of-update id cs,
    first_id_counted id cs,
    rewrite_none id cs,
    eq_iff c.key key,
    eq_iff c.key k,
    eq_iff key k,
  )
