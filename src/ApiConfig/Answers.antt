-- ===== src/ApiConfig/Answers.antt =====
-- What the answers of the configuration endpoint say of the options.
use microovn.Prelude.{
  Bool-cases, all, not, ◌&&◌, String, Bool, true, false, none, some, List, [], ◌∷◌, ◌==◌, eq_iff,
  if◌then◌else◌, ◌≡◌, ◌≢◌, refl, inl, inr, arith,
}
use Prim.Native.String.append.{cons as cons_append}
use Prim.Native.String.compare.{cons-nil as cons_nil}
use microovn.Text.{◌<>◌, split}
use microovn.Config.{set_config, delete_config}
use microovn.Config.Map.{option, set_config-option, delete_config-option}
use microovn.Effect.{Env, Error, World, Result-cases, ok, err, panic, ret, lift, attempt, ◌>>=◌}
use microovn.Effect.Keeps.{Keeps}
use microovn.Effect.Quiet.{SameDb, quiet}
use microovn.ApiConfig.{
  Answer, central_ips_key, parse_config_request, ovn_central_ips_updated, handle_set, handle_delete,
  answered, check_ips, validate_ovn_central_ips,
}

-- The option is the one that may be set, and its value a list of IP addresses.
abbrev pub is_acceptable : (String → Bool) → String → String → Bool
is_acceptable parse_ip key value =
    key == "ovn.central-ips" && not (value == "") && all parse_ip (split b',' value)

module _ (parse_ip : String → Bool) where
  check_ips-all : (ips : List String) → check_ips parse_ip ips ≡ ok tt → all parse_ip ips ≡ true
  unfolding check_ips
  check_ips-all [] h = refl
  check_ips-all (ip ∷ ips) h = ground (arith, check_ips-all ips)

  -- What the endpoint accepts is acceptable.
  parse_config_request-acceptable :
      (key value : String)
      → parse_config_request parse_ip key (some value) ≡ ok tt
      → is_acceptable parse_ip key value ≡ true
  unfolding parse_config_request validate_ovn_central_ips
  parse_config_request-acceptable key value h =
      elim (Result-cases (check_ips parse_ip (split b',' value))) [
        | inl (tt, p) ↦ (let a = check_ips-all (split b',' value) p in ground arith)
        | inr (inl (e, p)) ↦ absurd (ground arith)
        | inr (inr p) ↦ absurd (ground arith)
      ]

  check_ips-total : (ips : List String) → check_ips parse_ip ips ≢ panic
  unfolding check_ips
  check_ips-total [] h = ground arith
  check_ips-total (ip ∷ ips) h = ground (arith, check_ips-total ips)

  parse_config_request-total :
      (key value : String) → parse_config_request parse_ip key (some value) ≢ panic
  unfolding parse_config_request validate_ovn_central_ips
  parse_config_request-total key value h = ground (arith, check_ips-total (split 44 value))

-- A text that starts with one that is not empty is not empty.
pub starts_with_text : (s t : String) → (s == "") ≡ false → (s <> t == "") ≡ false
starts_with_text String.[] t h = absurd (ground arith)
starts_with_text (String.◌∷◌ c s) t h = rw (cons_append c s t, cons_nil c (s <> t)) refl

pub parse_failure :
    (parse_ip : String → Bool) (key value : String) (e : Error)
    → parse_config_request parse_ip key (some value) ≡ err e
    → (e.message == "") ≡ false
unfolding parse_config_request
parse_failure parse_ip key value e h =
    let a = starts_with_text "config key '" (key <> "' is not a recognized config option") refl in
    elim (Bool-cases (key == central_ips_key)) [
      | inr p ↦ ground (arith, a)
      | inl p ↦ elim (Result-cases (validate_ovn_central_ips parse_ip value)) [
        | inl (u, q) ↦ absurd (ground arith)
        | inr (inr q) ↦ absurd (ground arith)
        | inr (inl (f, q)) ↦
            let b =
              starts_with_text "configuration for key '" (key <> "' not valid: " <> f.message)
                refl in
            ground (arith, b)
      ]
    ]

module _ (env : Env) (parse_ip : String → Bool) where
  updated-SameDb : (key : String) → Keeps SameDb (ovn_central_ips_updated env parse_ip key)
  unfolding ovn_central_ips_updated
  updated-SameDb key = search quiet depth 10

module _ (env : Env) (parse_ip : String → Bool) (key value : String) (w : World) where
  -- A request to set an option whose name is not ovn.central-ips, or whose value is empty or has between
  -- its commas a text that is not an IP address, is answered with a failure that has an error text, makes
  -- no call and leaves the world as it is.
  pub handle_set-rejects :
      is_acceptable parse_ip key value ≡ false
      → (m : String) × ((m == "") ≡ false)
        × (handle_set env parse_ip key value w ≡ (ok (answered false m), w))
  unfolding handle_set ◌>>=◌ lift attempt ret
  handle_set-rejects h = elim (Result-cases (parse_config_request parse_ip key (some value))) [
    | inl (tt, p) ↦ absurd (ground (arith, parse_config_request-acceptable parse_ip key value p, h))
    | inr (inl (e, p)) ↦ (e.message, parse_failure parse_ip key value e p, rw p refl)
    | inr (inr p) ↦ absurd (parse_config_request-total parse_ip key value p)
  ]

  -- A request to set an option that is answered with a success was accepted, and has bound the key to
  -- the value and left every other key alone.
  pub handle_set-success :
      {a : Answer} (j : String)
      → (handle_set env parse_ip key value w).0 ≡ ok a
      → a.success ≡ true
      → (parse_config_request parse_ip key (some value) ≡ ok tt)
        × (option (handle_set env parse_ip key value w).1 j
            ≡ (if key == j then some value else option w j))
  unfolding handle_set ◌>>=◌ lift attempt ret
  handle_set-success j h s = elim (Result-cases (parse_config_request parse_ip key (some value))) [
    | inr (inl (e, p)) ↦ absurd (ground arith)
    | inr (inr p) ↦ absurd (ground arith)
    | inl (tt, p) ↦ elim (Result-cases (set_config env key value w).0) [
      | inr (inl (e, q)) ↦ absurd (ground arith)
      | inr (inr q) ↦ absurd (ground arith)
      | inl (tt, q) ↦
          let v = (set_config env key value w).1 in
          let d = (updated-SameDb env parse_ip key).at v in
          let o = set_config-option env key value w j q in
          elim (Result-cases (ovn_central_ips_updated env parse_ip key v).0) [
            | inl (tt, r) ↦ (p, ground (arith, o, eq_iff key j))
            | inr (inl (e, r)) ↦ absurd (ground arith)
            | inr (inr r) ↦ absurd (ground arith)
          ]
    ]
  ]

module _ (env : Env) (parse_ip : String → Bool) (key : String) (w : World) where
  -- A request to delete an option that is answered with a success has unbound the key and left every
  -- other key alone.
  pub handle_delete-success :
      {a : Answer} (j : String)
      → (handle_delete env parse_ip key w).0 ≡ ok a
      → a.success ≡ true
      → option (handle_delete env parse_ip key w).1 j ≡ (if key == j then none else option w j)
  unfolding handle_delete ◌>>=◌ lift attempt ret
  handle_delete-success j h s = elim (Result-cases (parse_config_request parse_ip key none)) [
    | inr (inl (e, p)) ↦ absurd (ground arith)
    | inr (inr p) ↦ absurd (ground arith)
    | inl (tt, p) ↦ elim (Result-cases (delete_config env key w).0) [
      | inr (inl (e, q)) ↦ absurd (ground arith)
      | inr (inr q) ↦ absurd (ground arith)
      | inl (tt, q) ↦
          let v = (delete_config env key w).1 in
          let d = (updated-SameDb env parse_ip key).at v in
          let o = delete_config-option env key w j q in
          elim (Result-cases (ovn_central_ips_updated env parse_ip key v).0) [
            | inl (tt, r) ↦ ground (arith, o, eq_iff key j)
            | inr (inl (e, r)) ↦ ground (arith, o, eq_iff key j)
            | inr (inr r) ↦ absurd (ground arith)
          ]
    ]
  ]
