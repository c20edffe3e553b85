-- ===== src/Text/Split.antt =====
-- `strings.Split` and `strings.Join`.
use Prim.Native.String.append.{nil as nil_append, cons as cons_append}
use mathlib.Core.Path.{ap₂}
use text.Mathlib.TextEquality.{Char-path}
use microovn.Prelude.{
  ℕ, String, Char, code, Bool, true, ◌&&◌, not, List, [], ◌∷◌, eqb, ◌≡◌, ◌≢◌, refl, ap, ◌∙◌, sym,
  inl, inr, Bool-cases, arith,
}
use microovn.Text.{◌<>◌, cons, push, split, join}

-- No character of the text is `sep`.
unfoldable pub lacks : ℕ → String → Bool
lacks sep String.[] = true
lacks sep (String.◌∷◌ c s) = not (eqb (code c) sep) && lacks sep s

-- A text without the separator is its own only part.
pub split_one : (sep : ℕ) (s : String) → lacks sep s ≡ true → split sep s ≡ s ∷ []
unfolding lacks split
split_one sep String.[] h = refl
split_one sep (String.◌∷◌ c s) h = ground (arith, split_one sep s)

-- The first part ends at the first separator.
pub split_first :
    (sep : ℕ) (d : Char) (p q : String)
    → code d ≡ sep
    → lacks sep p ≡ true
    → split sep (p <> cons d q) ≡ p ∷ split sep q
unfolding lacks split
split_first sep d String.[] q e h = rw (nil_append (cons d q)) (ground arith)
split_first sep d (String.◌∷◌ c p) q e h =
    rw (cons_append c p (cons d q)) (ground (arith, split_first sep d p q))

push-ne-nil : (c : Char) (ps : List String) → push c ps ≢ []
push-ne-nil c [] h = cc
push-ne-nil c (p ∷ ps) h = cc

split-ne-nil : (sep : ℕ) (s : String) → split sep s ≢ []
unfolding split
split-ne-nil sep String.[] h = cc
split-ne-nil sep (String.◌∷◌ c s) h =
    push-ne-nil c (split sep s) (ground (arith, split-ne-nil sep s))

join-push :
    (sep : String) (c : Char) (ps : List String)
    → ps ≢ []
    → join sep (push c ps) ≡ cons c (join sep ps)
unfolding join
join-push sep c [] h = absurd (h refl)
join-push sep c (p ∷ []) h = refl
join-push sep c (p ∷ q ∷ ps) h = cons_append c p (sep <> join sep (q ∷ ps))

join-nil : (sep : String) (ps : List String) → ps ≢ [] → join sep ("" ∷ ps) ≡ sep <> join sep ps
unfolding join
join-nil sep [] h = absurd (h refl)
join-nil sep (p ∷ ps) h = nil_append (sep <> join sep (p ∷ ps))

one_char : (d : Char) (s : String) → cons d "" <> s ≡ cons d s
one_char d s = cons_append d "" s ∙ ap (cons d) (nil_append s)

-- Joining the parts of a split gives the text back, for every text.
pub join-split : (d : Char) (s : String) → join (cons d "") (split (code d) s) ≡ s
unfolding split
join-split d String.[] = unfold join in refl
join-split d (String.◌∷◌ c s) = elim (Bool-cases (eqb (code c) (code d))) [
  | inl p ↦ rw p (
      join-nil (cons d "") (split (code d) s) (split-ne-nil (code d) s)
      ∙ one_char d (join (cons d "") (split (code d) s))
      ∙ ap₂ cons (sym (Char-path c d (ground arith))) (join-split d s))
  | inr p ↦ rw p (
      join-push (cons d "") c (split (code d) s) (split-ne-nil (code d) s)
      ∙ ap (cons c) (join-split d s))
]
