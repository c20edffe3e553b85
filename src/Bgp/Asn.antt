-- ===== src/Bgp/Asn.antt =====
-- `generateAsnFromClusterMemberID` of microovn/bgp/redirect.go. The arithmetic is that of uint64.
use native.Mathlib.Nat.{mod-eq_of_lt, mod_self}
use native.Mathlib.Decide.{dec_lt}
use microovn.Prelude.{
  ℕ, ◌+◌, ◌-◌, ◌%◌, ◌^◌, ◌≤◌, ◌<◌, ◌≡◌, ◌≢◌, ◌↔◌, arith, eqb, String, [], ◌∷◌, Option, none, some,
  ◌⊎◌, inl, inr, if◌then◌else◌,
}
use microovn.Database.{id_of}
use microovn.Effect.{
  Env, M, Result, ok, panic, ret, raise, gets, lift, call, statement, transaction, on_error, errorf,
  wrapf, ◌>>=◌, ◌>>◌,
}
use microovn.Text.{◌<>◌, format}

abbrev pub word : ℕ
word = 2 ^ 64

-- `rangeSize := maxAsn - minAsn + 1`
unfoldable pub range_size : ℕ → ℕ → ℕ
range_size min max = (max + word - min + 1) % word

-- `minAsn + (uint64(memberID) % rangeSize) - 1`, where a division by zero is a panic.
unfoldable pub asn_number : ℕ → ℕ → ℕ → Result ℕ
asn_number min max member_id =
    if eqb (range_size min max) 0
    then panic
    else ok ((min + member_id % range_size min max + word - 1) % word)

module _ (env : Env) where
  unfoldable pub or_no_member : Option ℕ → M ℕ
  or_no_member none = raise (errorf ("no cluster member found with name " <> env.name))
  or_no_member (some id) = ret id

  -- The query of the member's id.
  unfoldable pub member_id : M ℕ
  member_id = do
    on_error (wrapf "query failed: ") (
        call env
          (statement "SELECT id FROM core_cluster_members WHERE name = ? LIMIT 1" (env.name ∷ [])))
    members ← gets (λ db. db.members)
    or_no_member (id_of env.name members)

  -- `generateAsnFromClusterMemberID`; the warning that it logs is left out.
  unfoldable pub generate_asn : ℕ → ℕ → M String
  generate_asn min max = do
    id ← on_error (wrapf "failed to get cluster member ID: ") (transaction env member_id)
    asn ← lift (asn_number min max id)
    ret (format asn)

mod_below : (a b : ℕ) → 0 < b → a % b < b
mod_below a b h = grind arith

small_mod : (i s : ℕ) → 0 < i → i ≤ s → ((i % s ≡ i) × (i < s)) ⊎ ((i ≡ s) × (i % s ≡ 0))
small_mod i s h k = elim (dec_lt i s) [
  | yes p ↦ inl (mod-eq_of_lt p, p)
  | no p ↦ let e : i ≡ s = omega arith in inr (e, rw e (mod_self s))
]

module _ (min max : ℕ) (low : 4200000000 ≤ min) (proper : min < max) (high : max ≤ 4294967294) where
  size : range_size min max ≡ max - min + 1
  unfolding range_size
  size = omega arith

  wraps : (r : ℕ) → r < max - min + 1 → (min + r + word - 1) % word ≡ min + r - 1
  wraps r h = omega arith

  -- With a valid range nothing wraps around: the number is `min - 1` plus a remainder.
  asn_number-value : (id : ℕ) → asn_number min max id ≡ ok (min + id % (max - min + 1) - 1)
  unfolding asn_number
  asn_number-value id =
      rw size
        (ground (arith, wraps (id % (max - min + 1)) (mod_below id (max - min + 1) (omega arith))))

  -- For a private range of at least two numbers, the number lies in the range exactly if the
  -- member's id is no multiple of the size of the range.
  pub asn_number-range :
      (id asn : ℕ)
      → asn_number min max id ≡ ok asn
      → ((min ≤ asn) × (asn ≤ max)) ↔ (id % (max - min + 1) ≢ 0)
  asn_number-range id asn h =
      let b = mod_below id (max - min + 1) (omega arith) in
      let e : asn ≡ min + id % (max - min + 1) - 1 = ground (arith, asn_number-value id) in
      (λ p. omega arith, λ p. omega arith)

  -- A member whose id is a multiple of the size gets the number below the range.
  pub asn_number_below : (id : ℕ) → id % (max - min + 1) ≡ 0 → asn_number min max id ≡ ok (min - 1)
  asn_number_below id h = ground (arith, asn_number-value id)

  -- For such a range, two members with positive ids get different numbers while the ids do not
  -- exceed the size of the range.
  pub asn_number-distinct :
      (i j a : ℕ)
      → i ≤ max - min + 1
      → j ≤ max - min + 1
      → 0 < i
      → 0 < j
      → asn_number min max i ≡ ok a
      → asn_number min max j ≡ ok a
      → i ≡ j
  asn_number-distinct i j a hi hj pi pj p q =
      let e : a ≡ min + i % (max - min + 1) - 1 = ground (arith, asn_number-value i) in
      let f : a ≡ min + j % (max - min + 1) - 1 = ground (arith, asn_number-value j) in
      omega (arith, small_mod i (max - min + 1), small_mod j (max - min + 1))
