-- ===== src/Database/Services/Ops.antt =====
-- What each operation of the mapper returns and writes, in terms of the set `enabled`.
use microovn.Prelude.{
  ℕ, String, Bool, false, ◌&&◌, none, some, List, [], ◌∷◌, ◌==◌, any, Option-cases, inl, inr,
  any-filter, any_congr, ◌∙◌, ◌≡◌, refl, arith,
}
use microovn.Database.{Db, Service, id_of}
use microovn.Effect.{Env, World, ok, ◌>>=◌, call, on_error}
use microovn.Database.Services.{
  get_services, service_exists, create_service, delete_service, joined, sort_rows, first_id, found,
  get_service_id, run_insert, run_delete, matches, select_services, insert_service, delete_rows,
  ServiceFilter,
}
use microovn.Database.Services.View.{enabled, any-joined, any-sort_rows}

abbrev pub of_member : String → ServiceFilter
of_member name = record { member = some name; service = none }

-- The rows selected for one member.
pub any-select_member :
    (db : Db) (name s : String)
    → any (λ (x : Service). x.service == s) (select_services (of_member name ∷ []) db)
      ≡ enabled db name s
unfolding select_services enabled
any-select_member db name s =
    any-filter _ (λ x. any (λ g. matches g x) (of_member name ∷ []))
      (joined db.members (sort_rows db.services))
    ∙ any_congr
        (λ x. any {A = ServiceFilter} (λ g. matches g x) (of_member name ∷ []) && x.service == s)
        (λ (x : Service). x.member == name && x.service == s)
        (joined db.members (sort_rows db.services)) (λ x. ground arith)
    ∙ any-joined db.members (sort_rows db.services) name s
    ∙ any-sort_rows _ db.services

abbrev pub with_service : String → ServiceFilter
with_service s = record { member = none; service = some s }

-- The rows selected for one service.
pub any-select_service :
    (db : Db) (name s : String)
    → any (λ (x : Service). x.member == name) (select_services (with_service s ∷ []) db)
      ≡ enabled db name s
unfolding select_services enabled
any-select_service db name s =
    any-filter _ (λ x. any (λ g. matches g x) (with_service s ∷ []))
      (joined db.members (sort_rows db.services))
    ∙ any_congr
        (λ x. any {A = ServiceFilter} (λ g. matches g x) (with_service s ∷ []) && x.member == name)
        (λ (x : Service). x.member == name && x.service == s)
        (joined db.members (sort_rows db.services)) (λ x. ground arith)
    ∙ any-joined db.members (sort_rows db.services) name s
    ∙ any-sort_rows _ db.services

pub found-first_id :
    (m s : String) (l : List Service)
    → found (first_id m s l) ≡ ok (any (λ (x : Service). x.member == m && x.service == s) l)
unfolding found first_id
found-first_id m s [] = refl
found-first_id m s (x ∷ l) = ground (arith, found-first_id m s l)

module _ (env : Env) where
  pub service_exists-enabled :
      (m s : String) (w : World) {b : Bool}
      → (service_exists env m s w).0 ≡ ok b
      → b ≡ enabled w.db m s
  unfolding service_exists get_service_id ◌>>=◌ call on_error enabled
  service_exists-enabled m s w h = ground (
    arith,
    found-first_id m s (joined w.db.members w.db.services),
    any-joined w.db.members w.db.services m s,
  )

  pub service_exists-db : (m s : String) (w : World) → (service_exists env m s w).1.db ≡ w.db
  unfolding service_exists get_service_id ◌>>=◌ call on_error
  service_exists-db m s w = ground arith

  pub get_services-db : (fs : List ServiceFilter) (w : World) → (get_services env fs w).1.db ≡ w.db
  unfolding get_services ◌>>=◌ call on_error
  get_services-db fs w = ground arith

  pub get_services-ok :
      (fs : List ServiceFilter) (w : World) {l : List Service}
      → (get_services env fs w).0 ≡ ok l
      → l ≡ select_services fs w.db
  unfolding get_services ◌>>=◌ call on_error
  get_services-ok fs w h = ground arith

  -- A created service was not there, belongs to a known member, and is added to the table.
  pub create_service-ok :
      (m s : String) (w : World) {n : ℕ}
      → (create_service env m s w).0 ≡ ok n
      → (i : ℕ) × (id_of m w.db.members ≡ some i)
        × ((create_service env m s w).1.db ≡ insert_service i s w.db)
        × (enabled w.db m s ≡ false)
  unfolding create_service run_insert ◌>>=◌ call on_error
  create_service-ok m s w h = elim (Option-cases (id_of m w.db.members)) [
    | inl p ↦ absurd (ground (arith, service_exists-db m s w))
    | inr (i, p) ↦ (
      i,
      p,
      ground (arith, service_exists-db m s w),
      ground (arith, service_exists-enabled m s w {b = false}),
    )
  ]

  pub delete_service-ok :
      (m s : String) (w : World)
      → (delete_service env m s w).0 ≡ ok tt
      → (delete_service env m s w).1.db ≡ delete_rows (id_of m w.db.members) s w.db
  unfolding delete_service run_delete ◌>>=◌ call on_error
  delete_service-ok m s w h = ground arith
