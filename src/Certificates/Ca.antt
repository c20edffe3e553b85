-- ===== src/Certificates/Ca.antt =====
-- The CA records of the cluster database: what `storeCA` writes and what its flag says.
use microovn.Prelude.{
  ℕ, String, Bool, false, not, ◌&&◌, Option, none, some, ◌==◌, eq_iff, if◌then◌else◌, ◌≡◌, ap, ◌∙◌,
  inl, inr, arith,
}
use microovn.Database.{Db}
use microovn.Database.Config.{get_config_item, create_config_item, update_config_item}
use microovn.Database.Config.Laws.{value_of, value_of-insert, value_of-update}
use microovn.Database.Config.Ops.{
  create_config_item-ok, update_config_item-ok, get_config_item-ok, get_config_item-db,
  value_of-any,
}
use microovn.Config.Map.{option}
use microovn.Effect.{Env, World, Result-cases, ok, ◌>>=◌, on_error, attempt}
use microovn.Effect.Outcome.{transaction-ok, inside}
use microovn.Certificates.{upsert, upsert_ca, store_ca, flag_text}

-- The two writes of an upsert, on the map of options.
module _ (env : Env) (key value : String) (w : World) where
  update_config_item-option :
      (k : String)
      → (update_config_item env key key value w).0 ≡ ok tt
      → option (update_config_item env key key value w).1 k
        ≡ (if key == k then some value else option w k)
  update_config_item-option k h =
      let (id, first, once, q) = update_config_item-ok env key w value h in
      ap (λ (b : Db). value_of k b.config) q ∙ value_of-update key value k id w.db.config first once

  create_config_item-option :
      {n : ℕ} (k : String)
      → (create_config_item env key value w).0 ≡ ok n
      → (option (create_config_item env key value w).1 k
          ≡ (if key == k then some value else option w k))
        × (option w key ≡ none)
  create_config_item-option k h =
      let (q, fresh) = create_config_item-ok env key w value h in
      (
        ap (λ (b : Db). value_of k b.config) q
            ∙ value_of-insert key value k w.db.next_config w.db.config fresh,
        value_of-any key w.db.config fresh,
      )

-- The option has this value.
abbrev pub holds : Option String → String → Bool
holds none value = false
holds (some v) value = v == value

module _ (env : Env) (label key value : String) (w : World) where
  upsert-option :
      {b : Bool} (k : String)
      → (upsert env label key value w).0 ≡ ok b
      → (option (upsert env label key value w).1 k ≡ (if key == k then some value else option w k))
        × (b ≡ not (holds (option w key) value))
  unfolding upsert ◌>>=◌ on_error attempt
  upsert-option k h = elim (Result-cases (get_config_item env key w).0) [
    | inl (item, p) ↦
        let v = (get_config_item env key w).1 in
        ground (
          arith,
          get_config_item-db env key w,
          get_config_item-ok env key w p,
          update_config_item-option env key value v k,
          eq_iff key k,
          eq_iff item.value value,
        )
    | inr (inl (e, p)) ↦
        let v = (get_config_item env key w).1 in
        let d = get_config_item-db env key w in
        elim (Result-cases (create_config_item env key value v).0) [
          | inl (n, q) ↦ ground (arith, create_config_item-option env key value v k q)
          | inr (inl (f, q)) ↦ absurd (ground arith)
          | inr (inr q) ↦ absurd (ground arith)
        ]
    | inr (inr p) ↦ absurd (ground arith)
  ]

-- The records of a CA, laid over the options that were there.
abbrev pub with_ca : String → String → Bool → World → String → Option String
with_ca cert key auto_renew w k =
    if "ca_auto_renew" == k
    then some (flag_text auto_renew)
    else if "ca_key" == k
    then some key
    else if "ca_cert" == k
    then some cert
    else option w k

abbrev pub is_ca : String → String → Bool → World → Bool
is_ca cert key auto_renew w =
    holds (option w "ca_cert") cert
    && holds (option w "ca_key") key
    && holds (option w "ca_auto_renew") (flag_text auto_renew)

module _ (env : Env) (cert key : String) (auto_renew : Bool) (w : World) where
  upsert_ca-option :
      {b : Bool} (k : String)
      → (upsert_ca env cert key auto_renew w).0 ≡ ok b
      → (option (upsert_ca env cert key auto_renew w).1 k ≡ with_ca cert key auto_renew w k)
        × (b ≡ not (is_ca cert key auto_renew w))
  unfolding upsert_ca ◌>>=◌
  upsert_ca-option k h = elim (Result-cases (upsert env "CA certificate" "ca_cert" cert w).0) [
    | inl (a, p) ↦
        let u = (upsert env "CA certificate" "ca_cert" cert w).1 in
        let m = λ (j : String). (upsert-option env "CA certificate" "ca_cert" cert w j p).0 in
        let ea = (upsert-option env "CA certificate" "ca_cert" cert w k p).1 in
        elim (Result-cases (upsert env "CA private key" "ca_key" key u).0) [
          | inl (b, q) ↦
              let v = (upsert env "CA private key" "ca_key" key u).1 in
              let n = λ (j : String). (upsert-option env "CA private key" "ca_key" key u j q).0 in
              let eb = (upsert-option env "CA private key" "ca_key" key u k q).1 in
              elim (Result-cases
                (upsert env "CA auto-renew flag" "ca_auto_renew" (flag_text auto_renew) v).0) [
                  | inl (c, r) ↦
                      let o =
                        upsert-option env "CA auto-renew flag" "ca_auto_renew"
                          (flag_text auto_renew) v k r in
                      ground (
                        arith,
                        m k,
                        m "ca_key",
                        m "ca_auto_renew",
                        n k,
                        n "ca_auto_renew",
                        ea,
                        eb,
                        o,
                      )
                  | inr (inl (e, r)) ↦ absurd (ground arith)
                  | inr (inr r) ↦ absurd (ground arith)
                ]
          | inr (inl (e, q)) ↦ absurd (ground arith)
          | inr (inr q) ↦ absurd (ground arith)
        ]
    | inr (inl (e, p)) ↦ absurd (ground arith)
    | inr (inr p) ↦ absurd (ground arith)
  ]

module _ (env : Env) (cert key : String) (auto_renew : Bool) (w : World) where
  -- storeCA that succeeds writes the three records, leaves every other option alone, and reports a
  -- change exactly if one of the records was missing or different.
  pub store_ca-option :
      {b : Bool} (k : String)
      → (store_ca env cert key auto_renew w).0 ≡ ok b
      → (option (store_ca env cert key auto_renew w).1 k ≡ with_ca cert key auto_renew w k)
        × (b ≡ not (is_ca cert key auto_renew w))
  unfolding store_ca
  store_ca-option k h =
      let (r, d) = transaction-ok env (upsert_ca env cert key auto_renew) w h in
      let (o, c) = upsert_ca-option env cert key auto_renew (inside w) k r in
      (ap (λ (b : Db). value_of k b.config) d ∙ o, c)
