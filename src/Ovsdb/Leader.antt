-- ===== src/Ovsdb/Leader.antt =====
-- The member that triggers an upgrade.
use microovn.Prelude.{
  ltb, leb, ◌&&◌, ◌==◌, any, all, refl, Bool-cases, inl, inr, String, Bool, true, List, [], ◌∷◌,
  eq_iff, ◌≡◌, arith,
}
use microovn.Database.{Member}
use microovn.Types.{srv_central}
use microovn.Commands.{OvsdbSpec}
use microovn.Effect.{Env, World, ok, M, lift}
use microovn.Effect.Outcome.{>>=-ok, on_error-ok}
use microovn.Node.Queries.{members_of, find_service-members}
use microovn.Ovsdb.{insert_member, sort_members, leads, is_node_upgrade_leader}

module _ (env : Env) (peers : OvsdbSpec → M (List String)) (w : World) where
  leader-leads :
      {b : Bool}
      → (is_node_upgrade_leader env peers w).0 ≡ ok b
      → leads env.name (sort_members (members_of w.db srv_central)) ≡ ok b
  unfolding is_node_upgrade_leader
  leader-leads h =
      let (l, p, q, r) = >>=-ok _ _ w h in
      let e = find_service-members env srv_central w (on_error-ok _ _ w p) in
      rw (← e) (unfold lift in q)

leads-same : (a b : String) (ms : List Member) → leads a ms ≡ ok true → leads b ms ≡ ok true → a ≡ b
unfolding leads
leads-same a b [] h k = absurd (ground arith)
leads-same a b (m ∷ ms) h k = ground (arith, eq_iff a m.name, eq_iff b m.name)

-- Two nodes that see the same tables never both lead an upgrade, unless they have the same name.
pub leader_unique :
    (a b : Env) (peers : OvsdbSpec → M (List String)) (u v : World)
    → u.db ≡ v.db
    → (is_node_upgrade_leader a peers u).0 ≡ ok true
    → (is_node_upgrade_leader b peers v).0 ≡ ok true
    → a.name ≡ b.name
leader_unique a b peers u v e h k =
    leads-same a.name b.name (sort_members (members_of v.db srv_central))
      (rw (← e) (leader-leads a peers u h)) (leader-leads b peers v k)

-- A member of this name is in the list, and no member of the list has a smaller id than it.
abbrev pub is_least : String → List Member → Bool
is_least name ms = any (λ (m : Member). name == m.name && all (λ (n : Member). leb m.id n.id) ms) ms

-- The first member of the list `l`, which has the members `ms` in another order, has the least id.
First : List Member → List Member → Type 0
First [] ms = ms ≡ []
First (x ∷ xs) ms =
    (all (λ (n : Member). leb x.id n.id) ms ≡ true)
    × ((p : Member → Bool) → p x ≡ true → any p ms ≡ true)

all_above :
    (x y : Member) (ms : List Member)
    → leb x.id y.id ≡ true
    → all (λ (n : Member). leb y.id n.id) ms ≡ true
    → all (λ (n : Member). leb x.id n.id) ms ≡ true
all_above x y [] h k = refl
all_above x y (m ∷ ms) h k = ground (arith, all_above x y ms)

insert_member-First :
    (m : Member) (l ms : List Member) → First l ms → First (insert_member m l) (m ∷ ms)
unfolding First insert_member
insert_member-First m [] ms h = rw h (ground arith, λ p k. ground arith)
insert_member-First m (y ∷ ys) ms (h, k) = elim (Bool-cases (ltb y.id m.id)) [
  | inl b ↦ rw b (ground arith, λ p q. (let a = k p q in ground arith))
  | inr b ↦ rw b (ground (arith, all_above m y ms), λ p q. ground arith)
]

sort_members-First : (ms : List Member) → First (sort_members ms) ms
unfolding sort_members First
sort_members-First [] = refl
sort_members-First (m ∷ ms) = insert_member-First m (sort_members ms) ms (sort_members-First ms)

First-least :
    (name : String) (l ms : List Member)
    → First l ms
    → leads name l ≡ ok true
    → is_least name ms ≡ true
unfolding First leads
First-least name [] ms h k = absurd (ground arith)
First-least name (x ∷ xs) ms (h, f) k = f _ (ground arith)

-- The node that leads is the central member with the least id.
pub leader_least :
    (env : Env) (peers : OvsdbSpec → M (List String)) (w : World)
    → (is_node_upgrade_leader env peers w).0 ≡ ok true
    → is_least env.name (members_of w.db srv_central) ≡ true
leader_least env peers w h =
    let ms = members_of w.db srv_central in
    First-least env.name (sort_members ms) ms (sort_members-First ms) (leader-leads env peers w h)
