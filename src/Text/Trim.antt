-- ===== src/Text/Trim.antt =====
-- `strings.Trim`, `strings.TrimRight` with a set of one character, `strings.CutSuffix`, and the bytes that
-- `fmt.Sprintf` prints.
use microovn.Prelude.{
  ℕ, zero, suc, ◌/◌, ◌%◌, String, Char, code, ◌&&◌, List, [], ◌∷◌, ◌==◌, eqb, ltb, if◌then◌else◌,
}
use microovn.Text.{cons, digit}

-- `strings.TrimLeft(s, c)`
unfoldable pub trim_left_of : ℕ → String → String
trim_left_of sep String.[] = ""
trim_left_of sep (String.◌∷◌ c s) =
    let rest = trim_left_of sep s in if eqb (code c) sep then rest else cons c s

-- `strings.TrimRight(s, c)`
unfoldable pub trim_right_of : ℕ → String → String
trim_right_of sep String.[] = ""
trim_right_of sep (String.◌∷◌ c s) =
    let rest = trim_right_of sep s in if rest == "" && eqb (code c) sep then "" else cons c rest

-- `strings.Trim(s, c)`
unfoldable pub trim_of : ℕ → String → String
unfolding trim_left_of trim_right_of
trim_of sep s = trim_right_of sep (trim_left_of sep s)

-- `strings.CutSuffix(s, suffix)`, whether or not it is found.
unfoldable pub cut_suffix : String → String → String
cut_suffix String.[] suffix = ""
cut_suffix (String.◌∷◌ c s) suffix =
    let rest = cut_suffix s suffix in if cons c s == suffix then "" else cons c rest

-- `%x` of a number below sixteen.
unfoldable pub hex_digit : ℕ → Char
hex_digit n =
    if ltb n 10
    then digit n
    else if eqb n 10
    then "a"
    else if eqb n 11
    then "b"
    else if eqb n 12
    then "c"
    else if eqb n 13
    then "d"
    else if eqb n 14
    then "e"
    else "f"

-- `%02x` of a byte.
unfoldable pub format_hex : ℕ → String
unfolding hex_digit
format_hex n = cons (hex_digit (n / 16 % 16)) (cons (hex_digit (n % 16)) "")

-- The first n elements.
unfoldable pub first : ℕ → List ℕ → List ℕ
first zero xs = []
first (suc n) [] = []
first (suc n) (x ∷ xs) = x ∷ first n xs
