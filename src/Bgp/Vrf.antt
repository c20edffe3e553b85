-- ===== src/Bgp/Vrf.antt =====
-- The choice of a VRF table, `getUsedVrfTableIDs` and `findAvailableVrfTableID` of
-- microovn/bgp/redirect.go.
use microovn.Prelude.{
  ℕ, zero, suc, ◌+◌, ◌-◌, ◌*◌, ◌^◌, ◌≤◌, ◌<◌, String, code, Bool, true, false, ◌||◌, ◌&&◌, not,
  Option, none, some, List, [], ◌∷◌, ◌++◌, eqb, ltb, filter, length, any, length-filter-le, ◌∙◌,
  ◌≡◌, ◌≢◌, refl, arith, if◌then◌else◌, Bool-cases, inl, inr,
}
use microovn.Text.{◌<>◌, cons, split, format}
use microovn.Effect.{Env, M, command, call, ret, lift, on_error, ◌>>=◌, errorf, Result, ok, err}

-- The digits at the front of a text, as `fmt.Sscanf(line, "%d", &id)` reads them into an int.
scan_digits : String → ℕ → Bool → Option ℕ
scan_digits String.[] n some_digit = if some_digit && ltb n (2 ^ 63) then some n else none
scan_digits (String.◌∷◌ c s) n some_digit =
    let rest = scan_digits s (n * 10 + (code c - 48)) true in
    let stop : Option ℕ = if some_digit && ltb n (2 ^ 63) then some n else none in
    if ltb (code c) 48 || ltb 57 (code c) then stop else rest

-- Blanks and a sign may stand in front. A negative number is no table that is looked for.
scan_int : String → Option ℕ
unfolding scan_digits
scan_int String.[] = none
scan_int (String.◌∷◌ c s) =
    let rest = scan_int s in
    if eqb (code c) 32 || eqb (code c) 9 || eqb (code c) 13
    then rest
    else if eqb (code c) b'+'
    then scan_digits s 0 false
    else scan_digits (cons c s) 0 false

table_ids : List String → List ℕ
unfolding scan_int
table_ids [] = []
table_ids (line ∷ lines) =
    let rest = table_ids lines in elim (scan_int line) [ none ↦ rest | some id ↦ id ∷ rest ]

abbrev pub is_used : List ℕ → ℕ → Bool
is_used used i = any (λ j. eqb j i) used

-- The loop over the candidates: `fuel` of them are left, from `i` on.
unfoldable pub search_id : ℕ → ℕ → List ℕ → Option ℕ
search_id zero i used = none
search_id (suc fuel) i used =
    let rest = search_id fuel (i + 1) used in if is_used used i then rest else some i

-- The candidates are 10 to `math.MaxUint32`.
abbrev pub candidates : ℕ
candidates = 4294967295 - 10 + 1

first_free : List ℕ → Result String
unfolding search_id
first_free used = elim (search_id candidates 10 used) [
  | none ↦ err (errorf "failed to find an available VRF table ID")
  | some i ↦ ok (format i)
]

module _ (env : Env) where
  abbrev shell : String → String → M String
  shell prefix script =
      on_error (λ e. errorf (prefix <> e.message)) (call env (command "sh" ("-c" ∷ script ∷ [])))

  -- `getUsedVrfTableIDs`: the keys of the map, the three reserved ones first.
  unfoldable pub get_used_vrf_table_ids : M (List ℕ)
  unfolding table_ids
  get_used_vrf_table_ids = do
    vrf_output ←
        shell "failed to query existing VRF table IDs: "
          "ip -j vrf show | jq '.[] | objects | .table'"
    route_output ←
        shell "failed to query existing routing tables: "
          "ip -j -d -N route show table all | jq -r '.[] | objects | .table' | sort | uniq"
    ret (253 ∷ 254 ∷ 255 ∷ table_ids (split 10 route_output ++ split 10 vrf_output))

  -- `findAvailableVrfTableID`
  unfoldable pub find_available_vrf_table_id : M String
  unfolding first_free
  find_available_vrf_table_id = do used ← get_used_vrf_table_ids; lift (first_free used)

-- The k tables from i on are in use.
pub all_used : ℕ → ℕ → List ℕ → Bool
all_used zero i used = true
all_used (suc k) i used = is_used used i && all_used k (i + 1) used

-- The table that the search returns is one of the candidates and not in use, and all candidates below it
-- are in use.
pub search_id-least :
    (fuel i n : ℕ) (used : List ℕ)
    → search_id fuel i used ≡ some n
    → (k : ℕ) × (n ≡ i + k) × (k < fuel) × (all_used k i used ≡ true) × (is_used used n ≡ false)
unfolding search_id all_used
search_id-least zero i n used h = absurd (ground arith)
search_id-least (suc fuel) i n used h = elim (Bool-cases (is_used used i)) [
  | inl p ↦
      let r : search_id fuel (i + 1) used ≡ some n = ground arith in
      let (k, e, l, a, f) = search_id-least fuel (i + 1) n used r in
      (suc k, omega arith, omega arith, ground arith, f)
  | inr p ↦ let e : i ≡ n = ground arith in (0, omega arith, omega arith, refl, rw (← e) p)
]

abbrev drop_id : ℕ → List ℕ → List ℕ
drop_id i used = filter (λ j. not (eqb j i)) used

-- The table i does not matter for the candidates above it.
is_used-drop_id : (i j : ℕ) (used : List ℕ) → i < j → is_used (drop_id i used) j ≡ is_used used j
is_used-drop_id i j [] h = refl
is_used-drop_id i j (k ∷ used) h = ground (arith, is_used-drop_id i j used h)

search_id_congr :
    (fuel i : ℕ) (used free : List ℕ)
    → ((j : ℕ) → i ≤ j → is_used used j ≡ is_used free j)
    → search_id fuel i used ≡ search_id fuel i free
unfolding search_id
search_id_congr zero i used free h = refl
search_id_congr (suc fuel) i used free h =
    rw (h i (omega arith), search_id_congr fuel (i + 1) used free (λ j l. h j (omega arith))) refl

length-drop_id :
    (i : ℕ) (used : List ℕ) → is_used used i ≡ true → length (drop_id i used) < length used
length-drop_id i [] h = absurd (ground arith)
length-drop_id i (j ∷ used) h =
    ground (arith, length-drop_id i used, length-filter-le (λ (k : ℕ). not (eqb k i)) used)

-- With more candidates than tables in use the search finds one.
pub search_id-total :
    (fuel i : ℕ) (used : List ℕ) → length used < fuel → search_id fuel i used ≢ none
unfolding search_id
search_id-total zero i used h = absurd (omega arith)
search_id-total (suc fuel) i used h = elim (Bool-cases (is_used used i)) [
  | inl p ↦ λ q.
      search_id-total fuel (i + 1) (drop_id i used) (omega (arith, length-drop_id i used p)) (
        search_id_congr fuel (i + 1) (drop_id i used) used
          (λ j l. is_used-drop_id i j used (omega arith))
        ∙ (ground arith))
  | inr p ↦ λ q. ground arith
]
