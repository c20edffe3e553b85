-- ===== src/Database/Services.antt =====
-- The mapper of the table `services`, microovn/database/service.mapper.go. Each prepared statement is
-- one call of the driver, named after the Go variable that holds it; it fails or has the effect of
-- its SQL text on the tables.
pub mod View
pub mod Ops
use Prim.Native.String.{compare}
use Prim.Native.Nat.{Ordering}
use microovn.Prelude.{
  ℕ, zero, suc, ◌+◌, String, Bool, true, false, ◌&&◌, ◌||◌, not, Option, none, some, List, [], ◌∷◌,
  map, ◌++◌, ◌==◌, eqb, ltb, is_none, any, filter, length, if◌then◌else◌,
}
use microovn.Text.{◌<>◌}
use microovn.Database.{Member, ServiceRow, Service, Db, id_of, name_of, same_row}
use microovn.Effect.{
  Error, Result, ok, err, panic, Env, M, ret, raise, gets, put, lift, attempt, ◌>>=◌, ◌>>◌, call,
  statement, errorf, status_errorf, wrapf, on_error,
}

-- `ServiceFilter`
pub record ServiceFilter : Type 0 where
  pub member : Option String
  pub service : Option String

-- services JOIN core_cluster_members ON services.member_id = core_cluster_members.id
pub joined : List Member → List ServiceRow → List Service
joined ms [] = []
joined ms (r ∷ rs) =
    let rest = joined ms rs in
    elim (name_of r.member_id ms) [
      | none ↦ rest
      | some name ↦ record { id = r.id; member = name; service = r.service } ∷ rest
    ]

-- ORDER BY core_cluster_members.id, services.service
pub before : ServiceRow → ServiceRow → Bool
before r s =
    ltb r.member_id s.member_id
    || eqb r.member_id s.member_id
      && (elim (compare s.service r.service) [ Ordering.lt ↦ false | _ ↦ true ])

pub insert_row : ServiceRow → List ServiceRow → List ServiceRow
insert_row r [] = r ∷ []
insert_row r (s ∷ rs) = if before r s then r ∷ s ∷ rs else s ∷ insert_row r rs

pub sort_rows : List ServiceRow → List ServiceRow
unfolding insert_row
sort_rows [] = []
sort_rows (r ∷ rs) = insert_row r (sort_rows rs)

matches_text : Option String → String → Bool
matches_text none s = true
matches_text (some t) s = s == t

-- WHERE ( member = ? AND services.service = ? ), or one half of it.
matches : ServiceFilter → Service → Bool
unfolding matches_text
matches f s = matches_text f.member s.member && matches_text f.service s.service

is_empty : ServiceFilter → Bool
is_empty f = is_none f.member && is_none f.service

-- The statement that `GetServices` picks, and the rows that it returns.
unfoldable pub select_services : List ServiceFilter → Db → List Service
unfolding joined sort_rows insert_row before matches matches_text
select_services [] db = joined db.members (sort_rows db.services)
select_services (f ∷ fs) db =
    filter (λ s. any (λ g. matches g s) (f ∷ fs)) (joined db.members (sort_rows db.services))

statement_of : List ServiceFilter → String
statement_of [] = "serviceObjects"
statement_of (f ∷ []) =
    if is_none f.service
    then "serviceObjectsByMember"
    else if is_none f.member
    then "serviceObjectsByService"
    else "serviceObjectsByMemberAndService"
statement_of (f ∷ g ∷ fs) = "getServicesRaw"

args_of : List ServiceFilter → List String
args_of [] = []
args_of (f ∷ fs) = text_of f.member (text_of f.service (args_of fs))
  where
    text_of : Option String → List String → List String
    text_of none rest = rest
    text_of (some t) rest = t ∷ rest

-- The rows that the subquery for a member's id and a service name select.
abbrev pub is_target : Option ℕ → String → ServiceRow → Bool
is_target none service r = false
is_target (some i) service r = same_row i service r

abbrev pub new_row : Db → ℕ → String → ServiceRow
new_row db member_id service = record {
  id = db.next_service;
  member_id = member_id;
  service = service;
}

abbrev pub insert_service : ℕ → String → Db → Db
insert_service member_id service db = record db {
  services = db.services ++ new_row db member_id service ∷ [];
  next_service = db.next_service + 1;
}

abbrev pub delete_rows : Option ℕ → String → Db → Db
delete_rows id service db = record db {
  services = filter (λ r. not (is_target id service r)) db.services;
}

or_missing : List Service → Result Service
or_missing [] = err (status_errorf 404 "Service not found")
or_missing (s ∷ []) = ok s
or_missing (s ∷ t ∷ rest) = err (errorf "More than one \"services\" entry matches")

pub first_id : String → String → List Service → Result ℕ
first_id member service [] = err (status_errorf 404 "Service not found")
first_id member service (s ∷ rest) =
    if s.member == member && s.service == service then ok s.id else first_id member service rest

pub found : Result ℕ → Result Bool
found (ok id) = ok true
found (err e) = if eqb e.status 404 then ok false else err e
found panic = panic

-- INSERT INTO services (member_id, service): the member has to exist (NOT NULL), and the pair has to
-- be new (UNIQUE).
run_insert : Option ℕ → String → M ℕ
run_insert none service =
    raise (errorf "Failed to create \"services\" entry: NOT NULL constraint failed")
run_insert (some member_id) service = do
  db ← gets (λ d. d)
  if any (same_row member_id service) db.services
      then raise (errorf "Failed to create \"services\" entry: UNIQUE constraint failed")
      else put (insert_service member_id service db) >> ret db.next_service

-- DELETE FROM services WHERE member_id = (SELECT …) AND service = ?
run_delete : Option ℕ → String → M ℕ
run_delete id service = do
  db ← gets (λ d. d)
  put (delete_rows id service db)
  ret (length (filter (is_target id service) db.services))

abbrev is_of_member : Option ℕ → ServiceRow → Bool
is_of_member none r = false
is_of_member (some i) r = eqb r.member_id i

abbrev rewrite_row : ℕ → ℕ → String → ServiceRow → ServiceRow
rewrite_row id member_id service r =
    if eqb r.id id then record { id = r.id; member_id = member_id; service = service } else r

-- UPDATE services SET member_id = (SELECT …), service = ? WHERE id = ?
run_update : Option ℕ → String → ℕ → M ℕ
run_update none service id =
    raise (errorf "Update \"services\" entry failed: NOT NULL constraint failed")
run_update (some member_id) service id = do
  db ← gets (λ d. d)
  if any (λ r. not (eqb r.id id) && same_row member_id service r) db.services
      then raise (errorf "Update \"services\" entry failed: UNIQUE constraint failed")
      else do
        put (record db { services = map (rewrite_row id member_id service) db.services })
        ret (length (filter (λ r. eqb r.id id) db.services))

module _ (env : Env) where
  -- `GetServices`
  unfoldable pub get_services : List ServiceFilter → M (List Service)
  unfolding is_empty statement_of args_of
  get_services filters =
      if any is_empty filters then raise (errorf "Cannot filter on empty ServiceFilter") else do
        on_error (wrapf "Failed to fetch from \"services\" table: ")
            (call env (statement (statement_of filters) (args_of filters)))
        gets (select_services filters)

  -- `GetService`
  pub get_service : String → String → M Service
  unfolding or_missing
  get_service member service = do
    objects ←
        on_error (wrapf "Failed to fetch from \"services\" table: ")
          (get_services (record { member = some member; service = some service } ∷ []))
    lift (or_missing objects)

  -- `GetServiceID`
  unfoldable pub get_service_id : String → String → M ℕ
  unfolding first_id joined
  get_service_id member service = do
    on_error (wrapf "Failed to get \"services\" ID: ")
        (call env (statement "serviceID" (member ∷ service ∷ [])))
    objects ← gets (λ db. joined db.members db.services)
    lift (first_id member service objects)

  -- `ServiceExists`
  unfoldable pub service_exists : String → String → M Bool
  unfolding found
  service_exists member service = do r ← attempt (get_service_id member service); lift (found r)

  -- `CreateService`
  unfoldable pub create_service : String → String → M ℕ
  unfolding run_insert
  create_service member service = do
    exists ← on_error (wrapf "Failed to check for duplicates: ") (service_exists member service)
    if exists then raise (status_errorf 409 "This \"services\" entry already exists") else do
      on_error (wrapf "Failed to create \"services\" entry: ")
          (call env (statement "serviceCreate" (member ∷ service ∷ [])))
      db ← gets (λ d. d)
      run_insert (id_of member db.members) service

  -- `DeleteService`
  unfoldable pub delete_service : String → String → M (Unit {0})
  unfolding run_delete
  delete_service member service = do
    on_error (wrapf "Delete \"services\": ")
        (call env (statement "serviceDeleteByMemberAndService" (member ∷ service ∷ [])))
    db ← gets (λ d. d)
    n ← run_delete (id_of member db.members) service
    if eqb n 0
        then raise (status_errorf 404 "Service not found")
        else if ltb 1 n
        then raise (errorf "Query deleted more than 1 Service row")
        else ret tt

  -- `DeleteServices`
  pub delete_services : String → M (Unit {0})
  delete_services member = do
    on_error (wrapf "Delete \"services\": ")
        (call env (statement "serviceDeleteByMember" (member ∷ [])))
    db ← gets (λ d. d)
    put (record db {
      services = filter (λ r. not (is_of_member (id_of member db.members) r)) db.services;
    })

  -- `UpdateService`
  pub update_service : String → String → String → String → M (Unit {0})
  unfolding run_update
  update_service member service new_member new_service = do
    id ← get_service_id member service
    on_error (wrapf "Update \"services\" entry failed: ")
        (call env (statement "serviceUpdate" (new_member ∷ new_service ∷ [])))
    db ← gets (λ d. d)
    n ← run_update (id_of new_member db.members) new_service id
    if eqb n 1 then ret tt else raise (errorf "Query updated a number of rows other than 1")
