-- ===== src/Text/Decimal.antt =====
-- The decimal print of a number and its parse.
use Prim.Native.String.compare.{cons-nil}
use microovn.Prelude.{
  ℕ, zero, suc, ◌+◌, ◌/◌, ◌%◌, ◌≤◌, ◌<◌, String, Char, code, true, false, some, ◌==◌, eqb, ◌≡◌,
  refl, arith, inl, inr, Bool-cases,
}
use microovn.Text.{cons, digit, emit, format, scan, parse_uint}
use microovn.Text.Split.{lacks}

code-digit : (d : ℕ) → d < 10 → code (digit d) ≡ 48 + d
unfolding digit
code-digit zero h = refl
code-digit (suc zero) h = refl
code-digit (suc (suc zero)) h = refl
code-digit (suc (suc (suc zero))) h = refl
code-digit (suc (suc (suc (suc zero)))) h = refl
code-digit (suc (suc (suc (suc (suc zero))))) h = refl
code-digit (suc (suc (suc (suc (suc (suc zero)))))) h = refl
code-digit (suc (suc (suc (suc (suc (suc (suc zero))))))) h = refl
code-digit (suc (suc (suc (suc (suc (suc (suc (suc zero)))))))) h = refl
code-digit (suc (suc (suc (suc (suc (suc (suc (suc (suc zero))))))))) h = refl
code-digit (suc (suc (suc (suc (suc (suc (suc (suc (suc (suc d)))))))))) h = absurd (omega arith)

scan-emit :
    (max fuel n : ℕ) (s : String) → n < fuel → n ≤ max → scan max (emit fuel n s) 0 ≡ scan max s n
unfolding emit scan
scan-emit max zero n s h fits = absurd (omega arith)
scan-emit max (suc fuel) n s h fits =
    ground (arith, code-digit (n % 10), scan-emit max fuel (n / 10) (cons (digit (n % 10)) s))

cons-ne-nil : (c : Char) (s : String) → (cons c s == "") ≡ false
cons-ne-nil c s = rw (cons-nil c s) refl

scan-format : (max n : ℕ) → n ≤ max → scan max (format n) 0 ≡ some n
unfolding format scan
scan-format max n h = elim (Bool-cases (eqb n 0)) [
  | inl z ↦ rw z (ground arith)
  | inr p ↦ rw p (scan-emit max (suc n) n "" (omega arith) h)
]

emit-lacks :
    (fuel n sep : ℕ) (s : String) → sep < 48 → lacks sep s ≡ true → lacks sep (emit fuel n s) ≡ true
unfolding emit lacks
emit-lacks zero n sep s h k = k
emit-lacks (suc fuel) n sep s h k =
    ground (arith, code-digit (n % 10), emit-lacks fuel (n / 10) sep (cons (digit (n % 10)) s))

-- The digits hold no separator, such as a comma or a dash.
pub format-lacks : (n sep : ℕ) → sep < 48 → lacks sep (format n) ≡ true
unfolding format lacks
format-lacks n sep h = elim (Bool-cases (eqb n 0)) [
  | inl z ↦ rw z (ground arith)
  | inr p ↦ rw p (emit-lacks (suc n) n sep "" h refl)
]

-- A print is not empty.
emit-ne-nil : (fuel n : ℕ) (s : String) → (s == "") ≡ false → (emit fuel n s == "") ≡ false
unfolding emit
emit-ne-nil zero n s h = h
emit-ne-nil (suc fuel) n s h =
    ground
      (arith, emit-ne-nil fuel (n / 10) (cons (digit (n % 10)) s) (cons-ne-nil (digit (n % 10)) s))

format-ne-nil : (n : ℕ) → (format n == "") ≡ false
unfolding format emit
format-ne-nil n = elim (Bool-cases (eqb n 0)) [
  | inl z ↦ rw z refl
  | inr p ↦
      rw p (emit-ne-nil n (n / 10) (cons (digit (n % 10)) "") (cons-ne-nil (digit (n % 10)) ""))
]

-- A number in range is read back from its print.
pub parse_uint-format : (max n : ℕ) → n ≤ max → parse_uint max (format n) ≡ some n
unfolding parse_uint
parse_uint-format max n h = rw (format-ne-nil n) (scan-format max n h)
