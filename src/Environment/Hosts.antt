-- ===== src/Environment/Hosts.antt =====
-- Which hosts run OVN central, and which of them a new database joins.
use microovn.Prelude.{
  String, Bool, true, Option, none, some, List, [], ◌∷◌, ◌++◌, ◌==◌, eq_iff, any, all, filter, ◌≡◌,
  ◌≢◌, refl, ap, arith, inl, inr, Option-cases,
}
use microovn.Text.{split}
use microovn.Database.{Member, Service, ConfigItem, Db}
use microovn.Database.Services.{get_services}
use microovn.Database.Services.View.{enabled}
use microovn.Database.Services.Ops.{
  with_service, any-select_service, get_services-ok, get_services-db,
}
use microovn.Effect.{Env, World, Result-cases, ok, call, gets, lift, ret, ◌>>=◌}
use microovn.Effect.Outcome.{>>=-ok, inside, transaction-ok}
use mathlib.Core.Option
use microovn.Config.{get_config}
use microovn.Config.Map.{option, get_config-option}
use microovn.Environment.{
  addresses, first_remote, single, bracketed, initial_nb_sb_host, central_addresses, or_default,
  remote_addresses_from_config, central_ips,
}

single-many :
    (mine : List String) (a b : String) (rest : List String) → single (mine ++ a ∷ b ∷ rest) ≡ ""
single-many [] a b rest = refl
single-many (x ∷ []) a b rest = refl
single-many (x ∷ y ∷ mine) a b rest = refl

first_remote-skip :
    (local a : String) (mine rest : List String)
    → all (λ x. x == local) mine ≡ true
    → a ≢ local
    → first_remote local (mine ++ a ∷ rest) ≡ a
unfolding first_remote
first_remote-skip local a [] rest h n = ground (arith, eq_iff a local)
first_remote-skip local a (x ∷ mine) rest h n = ground (arith, first_remote-skip local a mine rest)

-- With at least two hosts, the one to join is the first that is not this node, with brackets if it is
-- an IPv6 address.
pub initial_host-remote :
    (local a b : String) (mine rest : List String)
    → all (λ x. x == local) mine ≡ true
    → a ≢ local
    → initial_nb_sb_host local (mine ++ a ∷ b ∷ rest) ≡ bracketed a
unfolding initial_nb_sb_host
initial_host-remote local a b mine rest h n =
    ap bracketed (rw (single-many mine a b rest) (first_remote-skip local a mine (b ∷ rest) h n))

-- The hosts of some members, if the address of each is one.
unfoldable pub hosts : (String → Option String) → List Member → Option (List String)
hosts host_of [] = some []
hosts host_of (m ∷ ms) =
    let rest = hosts host_of ms in
    elim (host_of m.address) [
      | none ↦ none
      | some a ↦ elim rest [ none ↦ none | some l ↦ some (a ∷ l) ]
    ]

addresses-hosts :
    (host_of : String → Option String) (servers : List Service) (p : String → Bool)
    (ms : List Member) {l : List String}
    → ((n : String) → any (λ (s : Service). s.member == n) servers ≡ p n)
    → addresses host_of servers ms ≡ ok l
    → hosts host_of (filter (λ (m : Member). p m.name) ms) ≡ some l
unfolding addresses hosts
addresses-hosts host_of servers p [] k h = ground arith
addresses-hosts host_of servers p (m ∷ ms) k h =
    elim (Result-cases (addresses host_of servers ms)) [
      | inl (l, q) ↦ elim (Option-cases (host_of m.address)) [
        | inl r ↦ ground (arith, k m.name, addresses-hosts host_of servers p ms k q)
        | inr (a, r) ↦ ground (arith, k m.name, addresses-hosts host_of servers p ms k q)
      ]
      | inr (inl (e, q)) ↦ absurd (elim (Option-cases (host_of m.address)) [
        | inl r ↦ ground arith
        | inr (a, r) ↦ ground arith
      ])
      | inr (inr q) ↦ absurd (elim (Option-cases (host_of m.address)) [
        | inl r ↦ ground arith
        | inr (a, r) ↦ ground arith
      ])
    ]

-- The members that run OVN central.
abbrev pub central_members : Db → List Member
central_members db = filter (λ (m : Member). enabled db m.name "central") db.members

module _ (env : Env) where
  central_addresses-hosts :
      (w : World) {l : List String}
      → (central_addresses env w).0 ≡ ok l
      → hosts env.host_of (central_members w.db) ≡ some l
  unfolding central_addresses
  central_addresses-hosts w {l} h =
      let (servers, p, q, r) = >>=-ok (get_services env (with_service "central" ∷ [])) _ w h in
      let e = get_services-ok env (with_service "central" ∷ []) w p in
      let d = get_services-db env (with_service "central" ∷ []) w in
      let f : addresses env.host_of servers w.db.members ≡ ok l =
        unfold ◌>>=◌ call gets lift in ground arith in
      addresses-hosts env.host_of servers (λ n. enabled w.db n "central") w.db.members
        (λ n. rw e (any-select_service w.db n "central")) f

  -- The hosts by the option, if it is set, and by the table.
  pub chosen_hosts : Option String → Db → Option (List String)
  chosen_hosts none db = hosts env.host_of (central_members db)
  chosen_hosts (some v) db = some (split 44 v)

  or_default-hosts :
      (item : Option ConfigItem) (configured : Option String) (w : World) {l : List String}
      → Option.map (λ (c : ConfigItem). c.value) item ≡ configured
      → (or_default env (elim item [ none ↦ none | some c ↦ some (split 44 c.value) ]) w).0 ≡ ok l
      → chosen_hosts configured w.db ≡ some l
  unfolding or_default chosen_hosts ret
  or_default-hosts none configured w e q =
      rw (← e)
        (central_addresses-hosts (inside w) (transaction-ok env (central_addresses env) w q).0)
  or_default-hosts (some c) configured w e q = rw (← e) (ground arith)

  -- CentralIps that succeeds returns the hosts of the option ovn.central-ips if it is set, and those of
  -- the members that run OVN central if not.
  pub central_ips-hosts :
      (w : World) {l : List String}
      → (central_ips env w).0 ≡ ok l
      → chosen_hosts (option w "ovn.central-ips") w.db ≡ some l
  unfolding central_ips remote_addresses_from_config chosen_hosts
  central_ips-hosts w {l} h =
      let (o, p, q, r) = >>=-ok _ _ w h in
      let (item, p1, q1, r1) = >>=-ok (get_config env "ovn.central-ips") _ w p in
      let (e, d) = get_config-option env "ovn.central-ips" w p1 in
      let v = (remote_addresses_from_config env w).1 in
      let dv : v.db ≡ w.db = unfold ret in ground arith in
      let f : o ≡ (elim item [ none ↦ none | some c ↦ some (split 44 c.value) ]) =
        unfold ret in ground arith in
      let z =
        or_default-hosts item (option w "ovn.central-ips") v {l = l} (ground (arith, e))
          (rw (← f) q) in
      ground (arith, z)
