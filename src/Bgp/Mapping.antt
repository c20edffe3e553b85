-- ===== src/Bgp/Mapping.antt =====
-- What `teardownAll` of microovn/bgp/redirect.go leaves in ovn-bridge-mappings.
use Prim.Native.String.append.{nil as nil_append, cons as cons_append}
use Prim.Native.String.compare.{cons-nil}
use text.Mathlib.TextLemmas.{append_assoc, append-nil}
use microovn.Prelude.{
  ℕ, String, Char, code, Bool, true, false, not, ◌&&◌, List, [], ◌∷◌, ◌==◌, eqb, filter, all, ◌≡◌,
  refl, sym, ap, ◌∙◌, arith, inl, inr, Bool-cases, eq_refl,
}
use microovn.Text.{◌<>◌, cons, push, join, split, contains}
use microovn.Text.Split.{lacks}
use microovn.Text.Trim.{trim_left_of, trim_right_of, trim_of}
use microovn.Commands.{vs_ctl}
use microovn.Effect.{Env, Error, World, ok, attempt, errorf, ◌>>=◌}
use microovn.Effect.Errors.{also}
use microovn.Bgp.Names.{get_external_id, bgp_bridge_mapping}
use microovn.Bgp.Teardown.{keep_entries, remaining_mapping, restore_mapping, restore_args}

cons-ne-nil : (c : Char) (s : String) → (cons c s == "") ≡ false
cons-ne-nil c s = rw (cons-nil c s) refl

-- Trimming.
trim_right-lacks : (sep : ℕ) (s : String) → lacks sep s ≡ true → trim_right_of sep s ≡ s
unfolding trim_right_of lacks
trim_right-lacks sep String.[] h = refl
trim_right-lacks sep (String.◌∷◌ c s) h = ground (arith, trim_right-lacks sep s)

append-ne-nil : (p q : String) → (q == "") ≡ false → ((p <> q) == "") ≡ false
append-ne-nil String.[] q h = rw (nil_append q) h
append-ne-nil (String.◌∷◌ c p) q h = rw (cons_append c p q) (cons-ne-nil c (p <> q))

trim_right-append :
    (sep : ℕ) (p q : String)
    → (q == "") ≡ false
    → trim_right_of sep q ≡ q
    → trim_right_of sep (p <> q) ≡ p <> q
unfolding trim_right_of
trim_right-append sep String.[] q h k = rw (nil_append q) k
trim_right-append sep (String.◌∷◌ c p) q h k =
    rw (cons_append c p q) (ground (arith, trim_right-append sep p q h k, append-ne-nil p q h))

trim_left-lacks :
    (sep : ℕ) (p q : String)
    → (p == "") ≡ false
    → lacks sep p ≡ true
    → trim_left_of sep (p <> q) ≡ p <> q
unfolding trim_left_of lacks
trim_left-lacks sep String.[] q h k = absurd (ground arith)
trim_left-lacks sep (String.◌∷◌ c p) q h k = rw (cons_append c p q) (ground arith)

-- The entries.
-- A list of parts that are not empty and have no separator.
abbrev pub is_entry : ℕ → String → Bool
is_entry sep e = not (e == "") && lacks sep e

abbrev pub comma : String
comma = cons "," ""

trim_right-join :
    (e : String) (es : List String)
    → all (is_entry b',') (e ∷ es) ≡ true
    → (trim_right_of b',' (join comma (e ∷ es)) ≡ join comma (e ∷ es))
      × ((join comma (e ∷ es) == "") ≡ false)
unfolding join
trim_right-join e [] h = (trim_right-lacks b',' e (ground arith), ground arith)
trim_right-join e (f ∷ es) h =
    let (k, n) = trim_right-join f es (ground arith) in
    let m = append-ne-nil comma (join comma (f ∷ es)) n in
    (
      trim_right-append b',' e (comma <> join comma (f ∷ es)) m
          (trim_right-append b',' comma (join comma (f ∷ es)) n k),
      append-ne-nil e _ m,
    )

trim_left-join :
    (e : String) (es : List String)
    → all (is_entry b',') (e ∷ es) ≡ true
    → trim_left_of b',' (join comma (e ∷ es)) ≡ join comma (e ∷ es)
unfolding join
trim_left-join e [] h =
    ap (trim_left_of b',') (sym (append-nil e))
    ∙ trim_left-lacks b',' e "" (ground arith) (ground arith)
    ∙ append-nil e
trim_left-join e (f ∷ es) h = trim_left-lacks b',' e _ (ground arith) (ground arith)

trim_left-comma : (s : String) → trim_left_of b',' (comma <> s) ≡ trim_left_of b',' s
unfolding trim_left_of
trim_left-comma s = rw (cons_append "," "" s, nil_append s) refl

-- The parts, each behind a comma.
flat : List String → String
flat [] = ""
flat (e ∷ es) = comma <> e <> flat es

flat-join : (e : String) (es : List String) → flat (e ∷ es) ≡ comma <> join comma (e ∷ es)
unfolding flat join
flat-join e [] = ap (λ s. comma <> s) (append-nil e)
flat-join e (f ∷ es) = ap (λ s. comma <> e <> s) (flat-join f es)

trim-flat :
    (es : List String) → all (is_entry b',') es ≡ true → trim_of b',' (flat es) ≡ join comma es
unfolding trim_of flat join trim_left_of trim_right_of
trim-flat [] h = refl
trim-flat (e ∷ es) h =
    ap (trim_of b',') (flat-join e es)
    ∙ ap (trim_right_of b',') (trim_left-comma (join comma (e ∷ es)) ∙ trim_left-join e es h)
    ∙ (trim_right-join e es h).0

-- The entries that are not in the list.
abbrev pub others : List String → List String → List String
others micro es = filter (λ e. not (contains micro e)) es

keep_entries-flat :
    (micro es : List String) (acc : String)
    → keep_entries micro acc es ≡ acc <> flat (others micro es)
unfolding keep_entries flat
keep_entries-flat micro [] acc = sym (append-nil acc)
keep_entries-flat micro (e ∷ es) acc = elim (Bool-cases (contains micro e)) [
  | inl p ↦ rw p (keep_entries-flat micro es acc)
  | inr p ↦ rw p (
      keep_entries-flat micro es (acc <> "," <> e)
      ∙ append_assoc acc (comma <> e) (flat (others micro es))
      ∙ ap (λ s. acc <> s) (append_assoc comma e (flat (others micro es))))
]

all-others :
    (p : String → Bool) (micro es : List String) → all p es ≡ true → all p (others micro es) ≡ true
all-others p micro [] h = refl
all-others p micro (e ∷ es) h = ground (arith, all-others p micro es)

-- No part of a split has the separator.
push-lacks :
    (sep : ℕ) (c : Char) (ps : List String)
    → eqb (code c) sep ≡ false
    → all (lacks sep) ps ≡ true
    → all (lacks sep) (push c ps) ≡ true
unfolding lacks
push-lacks sep c [] h k = ground arith
push-lacks sep c (p ∷ ps) h k = ground arith

split-lacks : (sep : ℕ) (s : String) → all (lacks sep) (split sep s) ≡ true
unfolding split lacks
split-lacks sep String.[] = refl
split-lacks sep (String.◌∷◌ c s) = elim (Bool-cases (eqb (code c) sep)) [
  | inl p ↦ rw p (split-lacks sep s)
  | inr p ↦ rw p (push-lacks sep c (split sep s) p (split-lacks sep s))
]

full : String → Bool
full e = not (e == "")

entries :
    (es : List String)
    → all (lacks b',') es ≡ true
    → all (λ e. not (e == "")) es ≡ true
    → all (is_entry b',') es ≡ true
entries [] h k = refl
entries (e ∷ es) h k = ground (arith, entries es)

-- If no entry of ovn-bridge-mappings is empty, what is left of it are exactly the entries that are not in
-- MicroOVN's own list, in their order.
pub remaining_mapping-others :
    (ovn micro : String)
    → all (λ e. not (e == "")) (split b',' ovn) ≡ true
    → remaining_mapping ovn micro ≡ join "," (others (split b',' micro) (split b',' ovn))
unfolding remaining_mapping
remaining_mapping-others ovn micro h =
    ap (trim_of b',') (keep_entries-flat (split b',' micro) (split b',' ovn) "" ∙ nil_append _)
    ∙ trim-flat _ (
        all-others (is_entry b',') (split b',' micro) (split b',' ovn)
          (entries (split b',' ovn) (split-lacks b',' ovn) h))

contains-all_cons :
    (x : String) (xs es : List String)
    → all (contains xs) es ≡ true
    → all (contains (x ∷ xs)) es ≡ true
unfolding contains
contains-all_cons x xs [] h = refl
contains-all_cons x xs (e ∷ es) h = ground (arith, contains-all_cons x xs es)

all-contains : (es : List String) → all (contains es) es ≡ true
unfolding contains
all-contains [] = refl
all-contains (e ∷ es) = ground (arith, eq_refl e, contains-all_cons e es es (all-contains es))

others-nil : (micro es : List String) → all (contains micro) es ≡ true → others micro es ≡ []
others-nil micro [] h = refl
others-nil micro (e ∷ es) h = ground (arith, others-nil micro es)

remaining_mapping_self : (m : String) → remaining_mapping m m ≡ ""
unfolding remaining_mapping flat trim_of trim_left_of trim_right_of
remaining_mapping_self m =
    let es = split b',' m in
    rw (keep_entries-flat es es "", others-nil es es (all-contains es)) refl

-- Where both external ids hold the same text, which is what createExternalBridges and
-- createBridgeNetworks write to them, the key ovn-bridge-mappings is removed as a whole, with the entries
-- that were there before MicroOVN.
pub restore_mapping-removes :
    (env : Env) (errs : List Error) (m : String) (w v : World)
    → get_external_id env bgp_bridge_mapping w ≡ (ok m, v)
    → (m == "") ≡ false
    → restore_mapping env errs m w
      ≡ also errs
          (λ e. errorf (
            "failed to remove MicroOVN managed bridge mappings from ovn-bridge-mappings: "
            <> e.message))
          (vs_ctl env
            ("remove" ∷ "Open_vSwitch" ∷ "." ∷ "external-ids" ∷ "ovn-bridge-mappings" ∷ []))
          v
unfolding restore_mapping restore_args ◌>>=◌ attempt
restore_mapping-removes env errs m w v h k = rw (h, k, remaining_mapping_self m) refl
