-- ===== src/History/Guarded.antt =====
-- What an action of one member may do to the services of the cluster.
use microovn.Prelude.{
  ◌<◌, String, Bool, true, false, ◌&&◌, Option, List, [], ◌∷◌, ◌==◌, eq_iff, filter, length, ◌≡◌,
  refl, ap, ◌∙◌, arith, inl, inr, Bool-cases,
}
use microovn.Database.{Member, Db, unique_members}
use microovn.Database.Config.{delete_config_item}
use microovn.Database.Services.View.{enabled}
use microovn.Hooks.Growth.{SameServices}
use microovn.Types.{ExtraBgpConfig, srv_central}
use microovn.Node.Bgp.{BgpService}
use microovn.Node.Lifecycle.{enable_service, disable_service}
use microovn.Node.Lifecycle.Central.{centrals, disable_service-CentralStays}
use microovn.Node.Lifecycle.Disable.{Disabled, disable_service-cases, disable_service-frame}
use microovn.Node.Lifecycle.Enable.{Enabled, enable_service-cases, enable_service-frame}
use microovn.ApiBgp.Tagged.{enable_service-members}
use microovn.Effect.{
  Env, World, M, Reply-cases, Call, begin, commit, clock, statement, ◌>>=◌, call, now, on_error,
}
use microovn.Effect.Keeps.{
  IsFrame, Keeps, Keeps-bind, Keeps-call, Keeps-now, Keeps-ret, Keeps-raise, Keeps-lift, Keeps-gets,
  Keeps-attempt, Keeps-on_error, Keeps-panics, Keeps-either, Keeps-if, Keeps-transaction,
}
use microovn.Effect.Quiet.{SameDb}

-- The members are the same, those of another name have the services that they had, and, if the action is a
-- strict one, the central nodes do not run out.
pub record Guarded (name : String) (strict : Bool) (u v : World) : Type 0 where
  pub same_members : unique_members u.db.members ≡ true → v.db.members ≡ u.db.members
  pub same_others :
      unique_members u.db.members ≡ true
      → (m s : String) → (name == m) ≡ false
      → enabled v.db m s ≡ enabled u.db m s
  pub more_centrals :
      unique_members u.db.members ≡ true → strict ≡ true → 0 < centrals u.db → 0 < centrals v.db

module _ {name : String} {strict : Bool} where
  unchanged : (u v : World) → v.db ≡ u.db → Guarded name strict u v
  unchanged u v d = record {
    same_members = λ h. ap (λ (x : Db). x.members) d;
    same_others = λ h m s o. rw d refl;
    more_centrals = λ h b c. rw d c;
  }

  pub guarded : IsFrame (Guarded name strict)
  guarded = record {
    stay = λ w. unchanged w w refl;
    join = λ u v w p q. record {
      same_members = λ h. q.same_members (rw (p.same_members h) h) ∙ p.same_members h;
      same_others =
          λ h m s o. q.same_others (rw (p.same_members h) h) m s o ∙ p.same_others h m s o;
      more_centrals = λ h b c. q.more_centrals (rw (p.same_members h) h) b (p.more_centrals h b c);
    };
    undo = λ u v p. unchanged u (record v { db = u.db }) refl;
    begins = λ w. unchanged w (record w { calls = begin ∷ w.calls }) refl;
    commits = λ w. unchanged w (record w { calls = commit ∷ w.calls }) refl;
  }

  -- What leaves the database, or its members and their services, as they are.
  pub quiet-Guarded : {A : Type 0} (m : M A) → Keeps SameDb m → Keeps (Guarded name strict) m
  quiet-Guarded m k = record { at = λ w. unchanged w (m w).1 (k.at w) }

  pub steady-Guarded : {A : Type 0} (m : M A) → Keeps SameServices m → Keeps (Guarded name strict) m
  unfolding enabled centrals
  steady-Guarded m k = record {
    at = λ w. record {
      same_members = λ h. (k.at w).0;
      same_others = λ h n s o. (let (e, f) = k.at w in rw (e, f) refl);
      more_centrals = λ h b c. (let (e, f) = k.at w in rw (e, f) c);
    };
  }

  pub call-Guarded : (env : Env) (c : Call) → Keeps (Guarded name strict) (call env c)
  call-Guarded env c =
      Keeps-call guarded env c (λ w. unchanged w (record w { calls = c ∷ w.calls }) refl)

  pub now-Guarded : (env : Env) → Keeps (Guarded name strict) (now env)
  now-Guarded env =
      Keeps-now guarded env (λ w. unchanged w (record w { calls = clock ∷ w.calls }) refl)

pub ruleset guarding = (
  Keeps-bind, Keeps-ret, Keeps-raise, Keeps-lift, Keeps-gets, Keeps-attempt, Keeps-on_error,
  Keeps-panics, Keeps-either, Keeps-if, Keeps-transaction, guarded, call-Guarded, now-Guarded,
  quiet-Guarded, steady-Guarded,
)

pub delete_item-SameServices :
    (env : Env) (k : String) → Keeps SameServices (delete_config_item env k)
unfolding delete_config_item ◌>>=◌ call on_error
delete_item-SameServices env k = record {
  at = λ w. elim (Reply-cases (env.respond w.calls (statement "configItemDeleteByKey" (k ∷ [])))) [
    | inl (x, p) ↦ (ground arith, ground arith)
    | inr (x, p) ↦ (ground arith, ground arith)
  ];
}

-- If p holds of some member and q wherever p does, then q holds of some member.
length-filter_pos :
    (p q : Member → Bool) (ms : List Member)
    → ((m : Member) → p m ≡ true → q m ≡ true)
    → 0 < length (filter p ms)
    → 0 < length (filter q ms)
length-filter_pos p q [] h k = k
length-filter_pos p q (m ∷ ms) h k = ground (arith, h m, length-filter_pos p q ms h)

centrals-more :
    (u v : Db)
    → v.members ≡ u.members
    → ((m : String) → enabled u m srv_central ≡ true → enabled v m srv_central ≡ true)
    → 0 < centrals u
    → 0 < centrals v
unfolding centrals
centrals-more u v e h k =
    let l =
      length-filter_pos (λ m. enabled u m.name srv_central) (λ m. enabled v m.name srv_central)
        u.members (λ m. h m.name) k in
    let f = ap (λ ms. length (filter (λ (m : Member). enabled v m.name srv_central) ms)) e in
    omega arith

module _ (env : Env) (bgp : BgpService) where
  -- EnableService takes back no more than it has added.
  enable_service-more :
      (s : String) (c : Option ExtraBgpConfig) (w : World) (m t : String)
      → unique_members w.db.members ≡ true
      → enabled w.db m t ≡ true
      → enabled (enable_service env bgp s c w).1.db m t ≡ true
  unfolding Enabled
  enable_service-more s c w m t u h = elim (Bool-cases (env.name == m && s == t)) [
    | inr o ↦ enable_service-frame env bgp w u s c m t o ∙ h
    | inl o ↦ elim (enable_service-cases env bgp s c w) [
      | inl (d, r) ↦ rw d h
      | inr (i, id, fresh, valid, rest) ↦
          let e : env.name ≡ m = ground (arith, eq_iff env.name m) in
          let f : s ≡ t = ground (arith, eq_iff s t) in
          let g : enabled w.db m t ≡ false = rw (← e, ← f) fresh in absurd (ground arith)
    ]
  ]

  pub enable_service-Guarded :
      {strict : Bool} (s : String) (c : Option ExtraBgpConfig)
      → Keeps (Guarded env.name strict) (enable_service env bgp s c)
  enable_service-Guarded {strict} s c = record {
    at = λ w. record {
      same_members = λ u. enable_service-members env bgp s c w;
      same_others = λ u m t o. enable_service-frame env bgp w u s c m t (rw o refl);
      more_centrals = λ u b k.
          centrals-more w.db (enable_service env bgp s c w).1.db
            (enable_service-members env bgp s c w) (λ m. enable_service-more s c w m srv_central u)
            k;
    };
  }

  disable_service-members :
      (s : String) (allow : Bool) (w : World)
      → (disable_service env bgp s allow w).1.db.members ≡ w.db.members
  unfolding Disabled
  disable_service-members s allow w = elim (disable_service-cases env bgp s allow w) [
    | inl (d, r) ↦ ap (λ (x : Db). x.members) d
    | inr (d, e, g) ↦ ap (λ (x : Db). x.members) d
  ]

  -- A strict action does not confirm the removal of the last central node.
  pub disable_service-Guarded :
      {strict : Bool} (s : String) (allow : Bool)
      → (strict && allow) ≡ false
      → Keeps (Guarded env.name strict) (disable_service env bgp s allow)
  disable_service-Guarded {strict} s allow h = record {
    at = λ w. record {
      same_members = λ u. disable_service-members s allow w;
      same_others = λ u m t o. disable_service-frame env bgp w u s allow m t (rw o refl);
      more_centrals = λ u b k.
          let f : allow ≡ false = ground arith in
          rw f (((disable_service-CentralStays env bgp s).at w u).1 k);
    };
  }
