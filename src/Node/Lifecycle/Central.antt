-- ===== src/Node/Lifecycle/Central.antt =====
-- The last central node, and how many there are.
use microovn.Prelude.{
  ℕ, ◌<◌, ◌≤◌, ◌+◌, String, Bool, true, false, not, ◌&&◌, none, List, [], ◌∷◌, ◌==◌, eq_iff, filter,
  length, ◌≡◌, ◌≢◌, inl, inr, refl, ap, ◌∙◌, arith, Bool-cases,
}
use microovn.Database.{Member, Db, id_of, unique_members}
use microovn.Database.Services.{delete_rows}
use microovn.Database.Services.View.{enabled, enabled-delete}
use microovn.Types.{srv_central, service_names}
use microovn.Effect.{Env, World}
use microovn.Effect.Keeps.{IsFrame, Keeps, Keeps-bind, Keeps-attempt, Keeps-ret}
use microovn.Node.Bgp.{BgpService}
use microovn.Node.Queries.{members_of}
use microovn.Node.Lifecycle.{disable_service, disable_each, disable_all_services}
use microovn.Node.Lifecycle.Disable.{Disabled, disable_service-cases}

absent :
    (ms : List Member) (n : String)
    → id_of n ms ≡ none
    → length (filter (λ (m : Member). n == m.name) ms) ≡ 0
unfolding id_of
absent [] n h = refl
absent (m ∷ ms) n h = ground (arith, absent ms n, eq_iff m.name n, eq_iff n m.name)

at_most_one :
    (ms : List Member) (n : String)
    → unique_members ms ≡ true
    → length (filter (λ (m : Member). n == m.name) ms) ≤ 1
unfolding unique_members
at_most_one [] n h = omega arith
at_most_one (m ∷ ms) n h = ground (arith, at_most_one ms n, absent ms m.name, eq_iff n m.name)

without :
    (p q : Member → Bool) (ms : List Member)
    → length (filter p ms) ≤ length (filter (λ m. p m && not (q m)) ms) + length (filter q ms)
without p q [] = omega arith
without p q (m ∷ ms) = ground (arith, without p q ms)

filter_congr :
    (p q : Member → Bool) (ms : List Member)
    → ((m : Member) → p m ≡ q m)
    → filter p ms ≡ filter q ms
filter_congr p q [] h = refl
filter_congr p q (m ∷ ms) h = ground (arith, h m, filter_congr p q ms h)

-- How many members run OVN central.
unfoldable pub centrals : Db → ℕ
centrals db = length (members_of db srv_central)

fewer :
    (n : String) (b : Bool) (ms : List Member)
    → length (filter (λ (m : Member). n == m.name && b) ms)
      ≤ length (filter (λ (m : Member). n == m.name) ms)
fewer n b [] = omega arith
fewer n b (m ∷ ms) = ground (arith, fewer n b ms)

-- Removing this node's pair lowers the number by at most one.
centrals-delete :
    (db : Db) (n s : String)
    → unique_members db.members ≡ true
    → centrals db ≤ centrals (delete_rows (id_of n db.members) s db) + 1
unfolding centrals
centrals-delete db n s u =
    let p = λ (m : Member). enabled db m.name srv_central in
    let q = λ (m : Member). n == m.name && s == srv_central in
    let e =
      filter_congr (λ m. enabled (delete_rows (id_of n db.members) s db) m.name srv_central)
        (λ m. p m && not (q m)) db.members (λ m. enabled-delete db n s m.name srv_central u) in
    let a = without p q db.members in
    let b = fewer n (s == srv_central) db.members in
    let c = at_most_one db.members n u in rw e (omega arith)

centrals-delete_other :
    (db : Db) (n s : String)
    → unique_members db.members ≡ true
    → (s == srv_central) ≡ false
    → centrals (delete_rows (id_of n db.members) s db) ≡ centrals db
unfolding centrals
centrals-delete_other db n s u h = ap length (
    filter_congr (λ m. enabled (delete_rows (id_of n db.members) s db) m.name srv_central)
      (λ m. enabled db m.name srv_central) db.members
      (λ m. ground (arith, enabled-delete db n s m.name srv_central u)))

-- Central nodes do not run out, among unchanged members.
abbrev pub CentralStays : World → World → Type 0
CentralStays u v =
    unique_members u.db.members ≡ true
    → (v.db.members ≡ u.db.members) × (0 < centrals u.db → 0 < centrals v.db)

central_stays : IsFrame CentralStays
central_stays = record {
  stay = λ w h. (refl, λ p. p);
  join = λ u v w p q h. let (e, f) = p h in let (g, k) = q (rw e h) in (g ∙ e, λ l. k (f l));
  undo = λ u v p h. (refl, λ l. l);
  begins = λ w h. (refl, λ p. p);
  commits = λ w h. (refl, λ p. p);
}

module _ (env : Env) (bgp : BgpService) where
  pub disable_service-CentralStays :
      (s : String) → Keeps CentralStays (disable_service env bgp s false)
  unfolding Disabled centrals
  disable_service-CentralStays s = record {
    at = λ w u. elim (disable_service-cases env bgp s false w) [
      | inl (d, r) ↦ (ap (λ (b : Db). b.members) d, λ l. rw d l)
      | inr (d, e, g) ↦ (
        ap (λ (b : Db). b.members) d,
        λ l. elim (Bool-cases (s == srv_central)) [
          | inl c ↦
              let f : s ≡ srv_central = ground (arith, eq_iff s srv_central) in
              let k : length (members_of w.db srv_central) ≢ 1 = rw (← f) (g refl f) in
              let z = centrals-delete w.db env.name s u in rw d (omega arith)
          | inr c ↦ let z = centrals-delete_other w.db env.name s u c in rw (d, z) l
        ],
      )
    ];
  }

  disable_each-CentralStays :
      (services : List String) → Keeps CentralStays (disable_each env bgp services)
  unfolding disable_each
  disable_each-CentralStays [] = Keeps-ret central_stays tt
  disable_each-CentralStays (s ∷ services) =
      Keeps-bind central_stays _ _ (Keeps-attempt central_stays _ (disable_service-CentralStays s))
        λ r. disable_each-CentralStays services

  -- If members have unique names and ids, then without a confirmation neither DisableService nor
  -- DisableAllServices leaves a cluster that runs OVN central with no node that does, whatever they
  -- return and whichever calls fail.
  pub disable-centrals :
      (w : World) (service : String)
      → unique_members w.db.members ≡ true
      → 0 < centrals w.db
      → (0 < centrals (disable_service env bgp service false w).1.db)
        × (0 < centrals (disable_all_services env bgp w).1.db)
  unfolding disable_all_services
  disable-centrals w service u h = (
    ((disable_service-CentralStays service).at w u).1 h,
    ((disable_each-CentralStays service_names).at w u).1 h,
  )
