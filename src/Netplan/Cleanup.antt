-- ===== src/Netplan/Cleanup.antt =====
-- CleanupVirtualEthernets of microovn/netplan/netplan.go deletes one end of each pair.
use microovn.Prelude.{
  String, Bool, true, false, ◌&&◌, ◌||◌, List, [], ◌∷◌, ◌==◌, any, eq_refl, eq_iff, ◌⊎◌, Bool-cases,
  ◌≡◌, refl, arith, inl, inr,
}
use microovn.Effect.{Env, World, Call, command, Result-cases, ok, raise, call, attempt, ◌>>=◌}
use microovn.Effect.Keeps.{
  IsFrame, Keeps, Keeps-bind, Keeps-call, Keeps-ret, Keeps-raise, Keeps-attempt, Keeps-either,
  Keeps-if,
}
use microovn.Netplan.{
  Network, VirtualEthernet, Entries, delete_device, cleanup_veths, cleanup_virtual_ethernets,
}

-- The command that deletes an interface.
abbrev pub deletes : String → Call → Bool
deletes iface (command cmd (a ∷ b ∷ c ∷ d ∷ [])) =
    cmd == "ip" && a == "link" && b == "delete" && c == "dev" && d == iface
deletes iface c = false

-- The deletion of an interface has been run.
abbrev pub tried : World → String → Bool
tried w iface = any (deletes iface) w.calls

abbrev pub named : String → String × VirtualEthernet → Bool
named x (iface, veth) = iface == x

-- The interface is the other end of one that has been deleted.
abbrev pub paired : World → String → String × VirtualEthernet → Bool
paired w x (iface, veth) = veth.peer == x && tried w iface

abbrev StaysTried : String → World → World → Type 0
StaysTried y u v = tried u y ≡ true → tried v y ≡ true

stays_tried : (y : String) → IsFrame (StaysTried y)
stays_tried y = record {
  stay = λ w h. h;
  join = λ u v w f g h. g (f h);
  undo = λ u v f h. f h;
  begins = λ w h. h;
  commits = λ w h. h;
}

ruleset rules = (Keeps-bind, Keeps-ret, Keeps-raise, Keeps-attempt, Keeps-either, Keeps-if)

module _ (env : Env) where
  call-StaysTried : (y : String) (c : Call) → Keeps (StaysTried y) (call env c)
  call-StaysTried y c = Keeps-call (stays_tried y) env c λ w h. ground arith

  cleanup_veths-StaysTried :
      (y : String) (deleted : List String) (es : Entries VirtualEthernet)
      → Keeps (StaysTried y) (cleanup_veths env deleted es)
  unfolding cleanup_veths
  cleanup_veths-StaysTried y deleted [] = Keeps-ret (stays_tried y) _
  cleanup_veths-StaysTried y deleted ((iface, veth) ∷ rest) =
      search
        (
          rules,
          stays_tried,
          call-StaysTried,
          λ (d : List String). cleanup_veths-StaysTried y d rest,
        )
        depth 12

  -- A deletion that is run is among the calls, whatever it returns.
  delete-tried : (iface : String) (w : World) → tried (delete_device env iface w).1 iface ≡ true
  unfolding call
  delete-tried iface w = ground (arith, eq_refl iface)

  module _ (x : String) where
    -- The interface is deleted, or its other end is: of those deleted before, or of the list.
    Covered : List String → Entries VirtualEthernet → World → Type 0
    Covered deleted es v = (tried v x || any (λ d. d == x) deleted || any (paired v x) es) ≡ true

    covers_gone :
        (deleted : List String) (iface : String) (veth : VirtualEthernet)
        (rest : Entries VirtualEthernet) (z : World)
        → any (λ d. d == iface) deleted ≡ true
        → (any (named x) rest ≡ true → Covered deleted rest z)
        → any (named x) ((iface, veth) ∷ rest) ≡ true
        → Covered deleted ((iface, veth) ∷ rest) z
    unfolding Covered
    covers_gone deleted iface veth rest z g k p = elim (Bool-cases (iface == x)) [
      | inl e ↦
          let f : any (λ d. d == x) deleted ≡ true = rw (← (eq_iff iface x).0 e) g in ground arith
      | inr e ↦ ground (arith, k (ground arith))
    ]

    covers_tried :
        (deleted : List String) (iface : String) (veth : VirtualEthernet)
        (rest : Entries VirtualEthernet) (z : World)
        → tried z iface ≡ true
        → (any (named x) rest ≡ true
            → Covered (veth.peer ∷ deleted) rest z ⊎ Covered deleted rest z)
        → any (named x) ((iface, veth) ∷ rest) ≡ true
        → Covered deleted ((iface, veth) ∷ rest) z
    unfolding Covered
    covers_tried deleted iface veth rest z g k p = elim (Bool-cases (iface == x)) [
      | inl e ↦ let f : tried z x ≡ true = rw (← (eq_iff iface x).0 e) g in ground arith
      | inr e ↦ elim (k (ground arith)) [ inl c ↦ ground arith | inr c ↦ ground arith ]
    ]

    loop :
        (deleted : List String) (es : Entries VirtualEthernet) (w : World)
        → (cleanup_veths env deleted es w).0 ≡ ok tt
        → any (named x) es ≡ true
        → Covered deleted es (cleanup_veths env deleted es w).1
    loop deleted [] w h p = absurd (ground arith)
    loop deleted ((iface, veth) ∷ rest) w h p = elim (Bool-cases (any (λ d. d == iface) deleted)) [
      | inl gone ↦
          let run : cleanup_veths env deleted ((iface, veth) ∷ rest) w
              ≡ cleanup_veths env deleted rest w =
            unfold cleanup_veths in rw gone refl in
          rw run (covers_gone deleted iface veth rest _ gone (loop deleted rest w (rw (← run) h)) p)
      | inr here ↦
          let v = (delete_device env iface w).1 in
          let done = delete-tried iface w in
          elim (Result-cases (delete_device env iface w).0) [
            | inl (out, q) ↦
                let run : cleanup_veths env deleted ((iface, veth) ∷ rest) w
                    ≡ cleanup_veths env (veth.peer ∷ deleted) rest v =
                  unfold cleanup_veths attempt ◌>>=◌ in ground arith in
                rw run (
                  covers_tried deleted iface veth rest _
                    ((cleanup_veths-StaysTried iface _ rest).at v done)
                    (λ y. inl (loop (veth.peer ∷ deleted) rest v (rw (← run) h) y)) p)
            | inr (inl (e, q)) ↦
                let run : cleanup_veths env deleted ((iface, veth) ∷ rest) w
                    ≡ cleanup_veths env deleted rest v =
                  unfold cleanup_veths attempt ◌>>=◌ raise in ground arith in
                rw run (
                  covers_tried deleted iface veth rest _
                    ((cleanup_veths-StaysTried iface _ rest).at v done)
                    (λ y. inr (loop deleted rest v (rw (← run) h) y)) p)
            | inr (inr q) ↦ absurd (unfold cleanup_veths attempt ◌>>=◌ in ground arith)
          ]
    ]

  -- If CleanupVirtualEthernets succeeds, then for every interface of the configuration the command has been run that
  -- deletes it, or the one that deletes an interface of the configuration whose peer it is.
  pub cleanup_virtual_ethernets-paired :
      (c : Network) (x : String) (w : World)
      → (cleanup_virtual_ethernets env c w).0 ≡ ok tt
      → any (named x) c.virtual_ethernets ≡ true
      → (tried (cleanup_virtual_ethernets env c w).1 x
          || any (paired (cleanup_virtual_ethernets env c w).1 x) c.virtual_ethernets)
        ≡ true
  cleanup_virtual_ethernets-paired c x w h p =
      unfold Covered in ground (arith, loop x [] c.virtual_ethernets w h p)
