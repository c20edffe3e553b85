-- ===== src/Database/Services/View.antt =====
-- The contract of the table `services`: a set of pairs (member, service). `enabled` is that set, and
-- the statements of the mapper read and write it as one expects of a set.
use microovn.Prelude.{
  ℕ, String, Bool, true, false, ◌&&◌, ◌||◌, not, Option, none, some, List, [], ◌∷◌, ◌==◌, eqb,
  eq_iff, Option-cases, inl, inr, any, any-append, any-filter, any_congr, ◌∙◌, ◌≡◌, refl, arith,
}
use microovn.Database.{Member, ServiceRow, Service, Db, id_of, name_of, unique_members}
use microovn.Database.Services.{
  joined, insert_row, sort_rows, is_target, insert_service, delete_rows, new_row,
}

abbrev named : Option String → String → Bool
named none m = false
named (some n) m = n == m

abbrev selects : Option ℕ → ℕ → Bool
selects none j = false
selects (some i) j = eqb j i

-- The row says that `service` is enabled on the member called `m`.
pub row_enabled : List Member → String → String → ServiceRow → Bool
row_enabled ms m s r = named (name_of r.member_id ms) m && r.service == s

-- The abstract table.
unfoldable pub enabled : Db → String → String → Bool
unfolding row_enabled
enabled db m s = any (row_enabled db.members m s) db.services

id_name :
    (ms : List Member) (n : String) (i : ℕ)
    → unique_members ms ≡ true
    → id_of n ms ≡ some i
    → name_of i ms ≡ some n
unfolding unique_members
id_name [] n i u h = ground arith
id_name (m ∷ ms) n i u h = ground (arith, eq_iff m.name n, id_name ms n i)

name_id :
    (ms : List Member) (n : String) (i : ℕ)
    → unique_members ms ≡ true
    → name_of i ms ≡ some n
    → id_of n ms ≡ some i
unfolding unique_members
name_id [] n i u h = ground arith
name_id (m ∷ ms) n i u h = ground (arith, eq_iff m.name n, name_id ms n i)

-- A member's name and id determine one another.
name_cases :
    (ms : List Member) (m : String) (r : ServiceRow)
    → unique_members ms ≡ true
    → named (name_of r.member_id ms) m ≡ selects (id_of m ms) r.member_id
name_cases ms m r u = elim (Option-cases (id_of m ms)) [
  | inl p ↦ elim (Option-cases (name_of r.member_id ms)) [
    | inl q ↦ rw (p, q) refl
    | inr (n, q) ↦ ground (arith, eq_iff n m, name_id ms n r.member_id u q)
  ]
  | inr (i, p) ↦ elim (Option-cases (name_of r.member_id ms)) [
    | inl q ↦ ground (arith, id_name ms m i u p)
    | inr (n, q) ↦ ground (arith, eq_iff n m, name_id ms n r.member_id u q, id_name ms m i u p)
  ]
]

row_target :
    (ms : List Member) (m s : String) (r : ServiceRow)
    → unique_members ms ≡ true
    → row_enabled ms m s r ≡ is_target (id_of m ms) s r
unfolding row_enabled
row_target ms m s r u = ground (arith, name_cases ms m r u)

-- The new row is the pair (m, s).
row_inserted :
    (ms : List Member) (m s m' s' : String) (r : ServiceRow)
    → unique_members ms ≡ true
    → id_of m ms ≡ some r.member_id
    → r.service ≡ s
    → row_enabled ms m' s' r ≡ (m == m' && s == s')
unfolding row_enabled
row_inserted ms m s m' s' r u p q = rw (id_name ms m r.member_id u p, q) refl

-- What is left of a row of the pair (m', s') when the rows of (m, s) are removed.
kept_pair :
    (n m m' v s s' : String)
    → (not (n == m && v == s) && (n == m' && v == s'))
      ≡ ((n == m' && v == s') && not (m == m' && s == s'))
kept_pair n m m' v s s' =
    ground (arith, eq_iff n m, eq_iff n m', eq_iff m m', eq_iff v s, eq_iff v s', eq_iff s s')

row_removed :
    (ms : List Member) (m s m' s' : String) (r : ServiceRow)
    → unique_members ms ≡ true
    → (not (is_target (id_of m ms) s r) && row_enabled ms m' s' r)
      ≡ (row_enabled ms m' s' r && not (m == m' && s == s'))
unfolding row_enabled
row_removed ms m s m' s' r u = elim (Option-cases (name_of r.member_id ms)) [
  | inl p ↦ rw (← row_target ms m s r u, p) refl
  | inr (n, p) ↦ rw (← row_target ms m s r u, p) (kept_pair n m m' r.service s s')
]

any-and {ℓ} :
    {A : Type ℓ} (p : A → Bool) (c : Bool) (xs : List A) → any (λ x. p x && c) xs ≡ (any p xs && c)
any-and p c [] = refl
any-and p c (x ∷ xs) = ground (arith, any-and p c xs)

-- If members have unique names and ids, the INSERT of a service for a known member adds the pair of
-- the two to the set, and no other.
pub enabled-insert :
    (db : Db) (m s m' s' : String) (i : ℕ)
    → unique_members db.members ≡ true
    → id_of m db.members ≡ some i
    → enabled (insert_service i s db) m' s' ≡ (enabled db m' s' || (m == m' && s == s'))
unfolding enabled
enabled-insert db m s m' s' i u p = ground (
  arith,
  any-append (row_enabled db.members m' s') db.services (new_row db i s ∷ []),
  row_inserted db.members m s m' s' (new_row db i s) u p refl,
)

-- If members have unique names and ids, the DELETE of a service of a member takes the pair of the
-- two from the set, and no other.
pub enabled-delete :
    (db : Db) (m s m' s' : String)
    → unique_members db.members ≡ true
    → enabled (delete_rows (id_of m db.members) s db) m' s'
      ≡ (enabled db m' s' && not (m == m' && s == s'))
unfolding enabled
enabled-delete db m s m' s' u =
    any-filter _ _ db.services
    ∙ any_congr _ _ db.services (λ r. row_removed db.members m s m' s' r u)
    ∙ any-and _ _ db.services

-- A join sees the pairs of the set.
pub any-joined :
    (ms : List Member) (rows : List ServiceRow) (m s : String)
    → any (λ (x : Service). x.member == m && x.service == s) (joined ms rows)
      ≡ any (row_enabled ms m s) rows
unfolding joined row_enabled
any-joined ms [] m s = refl
any-joined ms (r ∷ rows) m s = ground (arith, any-joined ms rows m s)

any-insert_row :
    (p : ServiceRow → Bool) (r : ServiceRow) (rows : List ServiceRow)
    → any p (insert_row r rows) ≡ (p r || any p rows)
unfolding insert_row
any-insert_row p r [] = refl
any-insert_row p r (s ∷ rows) = ground (arith, any-insert_row p r rows)

-- ORDER BY changes no membership.
pub any-sort_rows :
    (p : ServiceRow → Bool) (rows : List ServiceRow) → any p (sort_rows rows) ≡ any p rows
unfolding sort_rows
any-sort_rows p [] = refl
any-sort_rows p (r ∷ rows) = rw (any-insert_row, any-sort_rows p rows) refl
