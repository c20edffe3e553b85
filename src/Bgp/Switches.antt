-- ===== src/Bgp/Switches.antt =====
-- Which logical switches `teardownAll` of microovn/bgp/redirect.go takes for those of the local chassis.
use Prim.Native.String.append.{nil as nil_append, cons as cons_append}
use Prim.Native.String.compare.{cons-nil}
use mathlib.Core.Path.{ap₂}
use text.Mathlib.TextLemmas.{append_assoc, append_cancel_right}
use text.Mathlib.TextEquality.{Char-path}
use microovn.Prelude.{
  String, Char, Bool, true, false, not, ◌&&◌, List, [], ◌∷◌, ◌==◌, ◌≡◌, refl, sym, ap, ◌∙◌, arith,
  inl, inr, Bool-cases, eq_iff,
}
use microovn.Text.{◌<>◌, cons, has_prefix}
use microovn.Text.Split.{lacks}
use microovn.Text.Trim.{cut_suffix}
use microovn.Effect.{Env, Error, World}
use microovn.Effect.Errors.{also}
use microovn.Effect.Keeps.{Keeps, Keeps-bind, Keeps-attempt, Keeps-ret, Keeps-either, Keeps-if}
use microovn.Bgp.Deletions.{deleted, Spared, spared, nb_ctl_cluster-Spared}
use microovn.Bgp.Names.{get_ls_name_chassis_match}
use microovn.Bgp.Teardown.{delete_switches}

-- A text that goes on in front of a suffix is not that suffix.
longer : (c : Char) (p s : String) → (cons c (p <> s) == s) ≡ false
longer c p s = elim (Bool-cases (cons c (p <> s) == s)) [
  | inl h ↦
      let e : cons c p ≡ "" =
        append_cancel_right (cons c p) "" s
          (cons_append c p s ∙ (eq_iff (cons c (p <> s)) s).0 h ∙ sym (nil_append s)) in
      absurd (ground (arith, cons-nil c p, (eq_iff (cons c p) "").1 e))
  | inr h ↦ h
]

cut_suffix-append : (p : String) (d : Char) (s : String) → cut_suffix (p <> cons d s) (cons d s) ≡ p
unfolding cut_suffix
cut_suffix-append String.[] d s =
    rw (nil_append (cons d s), (eq_iff (cons d s) (cons d s)).1 refl) refl
cut_suffix-append (String.◌∷◌ c p) d s =
    rw (cons_append c p (cons d s), longer c p (cons d s), cut_suffix-append p d s) refl

pub chassis_match : (env : Env) → get_ls_name_chassis_match env ≡ "ls-" <> env.name <> "-"
unfolding get_ls_name_chassis_match
chassis_match env =
    ap (λ s. cut_suffix s "FOO")
      (ap (λ s. "ls-" <> s) (sym (append_assoc env.name "-" "FOO"))
        ∙ sym (append_assoc "ls-" (env.name <> "-") "FOO"))
    ∙ cut_suffix-append ("ls-" <> env.name <> "-") "F" "OO"

pub has_prefix-append : (p s q : String) → has_prefix (p <> s) (p <> q) ≡ has_prefix s q
unfolding has_prefix
has_prefix-append String.[] s q = rw (nil_append s, nil_append q) refl
has_prefix-append (String.◌∷◌ c p) s q =
    rw (cons_append c p s, cons_append c p q) (ground (arith, has_prefix-append p s q))

-- Of two names without a dash, one with a dash behind it starts the other with a dash behind it only if
-- they are the same.
has_prefix-name :
    (g h iface : String)
    → lacks b'-' g ≡ true
    → lacks b'-' h ≡ true
    → has_prefix (g <> "-" <> iface) (h <> "-") ≡ true
    → g ≡ h
unfolding has_prefix lacks
has_prefix-name String.[] String.[] iface k l m = refl
has_prefix-name String.[] (String.◌∷◌ d h) iface k l m =
    absurd
      (ground (arith, nil_append ("-" <> iface), cons_append "-" "" iface, cons_append d h "-"))
has_prefix-name (String.◌∷◌ c g) String.[] iface k l m =
    absurd (ground (arith, cons_append c g ("-" <> iface), nil_append "-"))
has_prefix-name (String.◌∷◌ c g) (String.◌∷◌ d h) iface k l m =
    let n : has_prefix (cons c (g <> "-" <> iface)) (cons d (h <> "-")) ≡ true =
      ap₂ has_prefix (sym (cons_append c g ("-" <> iface))) (sym (cons_append d h "-")) ∙ m in
    ap (λ x. cons x g) (Char-path c d (ground arith))
    ∙ ap (cons d) (has_prefix-name g h iface (ground arith) (ground arith) (ground arith))

-- The name that the host `name` gives to the switch of the bridge `iface`.
abbrev pub switch_of : String × String → String
switch_of (name, iface) = "ls-" <> name <> "-" <> iface

-- The names of hosts other than this one, none of them with a dash in it.
abbrev pub is_other : String → String × String → Bool
is_other own (name, iface) = not (name == own) && lacks b'-' name

switch_of-match :
    (own : String) (p : String × String)
    → lacks b'-' own ≡ true
    → is_other own p ≡ true
    → has_prefix (switch_of p) ("ls-" <> own <> "-") ≡ false
switch_of-match own (name, iface) k h =
    elim (Bool-cases (has_prefix (switch_of (name, iface)) ("ls-" <> own <> "-"))) [
      | inl m ↦
          let e =
            has_prefix-name name own iface (ground arith) k
              (sym (has_prefix-append "ls-" (name <> "-" <> iface) (own <> "-")) ∙ m) in
          absurd (ground (arith, (eq_iff name own).1 e))
      | inr m ↦ m
    ]

module _ (env : Env) (other : String × String) (own : lacks b'-' env.name ≡ true)
    (not_own : is_other env.name other ≡ true) where
  match-other :
      (switch : String)
      → has_prefix switch (get_ls_name_chassis_match env) ≡ true
      → (switch == switch_of other) ≡ false
  match-other switch h =
      let keep : has_prefix (switch_of other) (get_ls_name_chassis_match env) ≡ false =
        ap (has_prefix (switch_of other)) (chassis_match env)
        ∙ switch_of-match env.name other own not_own in
      elim (Bool-cases (switch == switch_of other)) [
        | inl e ↦
            let p = (eq_iff switch (switch_of other)).0 e in
            absurd (ground (arith, ap (λ s. has_prefix s (get_ls_name_chassis_match env)) p))
        | inr e ↦ e
      ]

  delete_switches-Spared :
      (errs : List Error) (switches : List String)
      → Keeps (Spared (switch_of other)) (delete_switches env errs switches)
  unfolding delete_switches also
  delete_switches-Spared errs [] = Keeps-ret (spared (switch_of other)) errs
  delete_switches-Spared errs (switch ∷ switches) =
      let F = spared (switch_of other) in
      Keeps-if F _ _ _
        (λ h.
          Keeps-bind F _ _
            (Keeps-bind F _ _
              (Keeps-attempt F _
                (nb_ctl_cluster-Spared (switch_of other) env switch (match-other switch h)))
              λ r. Keeps-either F r _ _ (λ a. Keeps-ret F _) λ e. Keeps-ret F _)
            λ more. delete_switches-Spared more switches)
        λ h. delete_switches-Spared errs switches

  -- Among hosts whose names have no dash in them, teardownAll runs no command to delete a switch of another
  -- host, whichever switches it finds, its own among them, and whichever calls fail.
  pub delete_switches-others :
      (errs : List Error) (switches : List String) (w : World)
      → deleted (switch_of other) (delete_switches env errs switches w).1
        ≡ deleted (switch_of other) w
  delete_switches-others errs switches w = (delete_switches-Spared errs switches).at w
