-- ===== src/Text.antt =====
-- The functions of Go's packages strings, slices, strconv and fmt that the program calls on texts.
-- A text is a list of characters; the separators and digits of the program are all ASCII.
pub mod Split
pub mod Decimal
pub mod Trim
use Prim.Native.String.{◌++◌ as string_append}
use Prim.Native.Nat.{zero, suc}
use microovn.Prelude.{
  ℕ, ◌+◌, ◌-◌, ◌*◌, ◌/◌, ◌%◌, ◌^◌, String, Char, code, Bool, true, false, ◌&&◌, ◌||◌, not, Option,
  none, some, is_none, List, [], ◌∷◌, ◌==◌, eqb, ltb, leb, if◌then◌else◌,
}

-- Concatenation, which is also what `fmt.Sprintf` does with `%s`.
infixr 65 ◌<>◌
abbrev pub ◌<>◌ : String → String → String
s <> t = string_append s t

-- A text in front of which one character stands.
abbrev pub cons : Char → String → String
cons c s = String.◌∷◌ c s

-- `strings.Join(parts, sep)`
unfoldable pub join : String → List String → String
join sep [] = ""
join sep (p ∷ []) = p
join sep (p ∷ q ∷ ps) = p <> sep <> join sep (q ∷ ps)

-- `slices.Contains(list, s)`
unfoldable pub contains : List String → String → Bool
contains [] s = false
contains (x ∷ xs) s = x == s || contains xs s

abbrev pub push : Char → List String → List String
push c [] = cons c "" ∷ []
push c (p ∷ ps) = cons c p ∷ ps

-- `strings.Split(s, sep)` with a separator of one character.
unfoldable pub split : ℕ → String → List String
split sep String.[] = "" ∷ []
split sep (String.◌∷◌ c s) =
    let rest = split sep s in if eqb (code c) sep then "" ∷ rest else push c rest

-- `strings.HasPrefix(s, prefix)`
unfoldable pub has_prefix : String → String → Bool
has_prefix s String.[] = true
has_prefix String.[] (String.◌∷◌ d p) = false
has_prefix (String.◌∷◌ c s) (String.◌∷◌ d p) = eqb (code c) (code d) && has_prefix s p

-- `strings.Contains(s, part)`
unfoldable pub includes : String → String → Bool
unfolding has_prefix
includes String.[] part = has_prefix "" part
includes (String.◌∷◌ c s) part = has_prefix (cons c s) part || includes s part

-- `unicode.IsSpace`
unfoldable pub is_space : ℕ → Bool
is_space c =
    leb 9 c && leb c 13
    || eqb c 32
    || eqb c 0x85
    || eqb c 0xa0
    || eqb c 0x1680
    || leb 0x2000 c && leb c 0x200a
    || eqb c 0x2028
    || eqb c 0x2029
    || eqb c 0x202f
    || eqb c 0x205f
    || eqb c 0x3000

unfoldable pub trim_left : String → String
unfolding is_space
trim_left String.[] = ""
trim_left (String.◌∷◌ c s) = let rest = trim_left s in if is_space (code c) then rest else cons c s

unfoldable pub trim_right : String → String
unfolding is_space
trim_right String.[] = ""
trim_right (String.◌∷◌ c s) =
    let rest = trim_right s in if rest == "" && is_space (code c) then "" else cons c rest

-- `strings.TrimSpace(s)`
unfoldable pub trim_space : String → String
unfolding trim_left trim_right
trim_space s = trim_right (trim_left s)

-- The decimal digit of a number below ten.
unfoldable pub digit : ℕ → Char
digit zero = "0"
digit (suc zero) = "1"
digit (suc (suc zero)) = "2"
digit (suc (suc (suc zero))) = "3"
digit (suc (suc (suc (suc zero)))) = "4"
digit (suc (suc (suc (suc (suc zero))))) = "5"
digit (suc (suc (suc (suc (suc (suc zero)))))) = "6"
digit (suc (suc (suc (suc (suc (suc (suc zero))))))) = "7"
digit (suc (suc (suc (suc (suc (suc (suc (suc zero)))))))) = "8"
digit (suc (suc (suc (suc (suc (suc (suc (suc (suc n))))))))) = "9"

-- The digits of `n` in front of `s`. Each round divides `n` by ten, so fuel above `n` is enough.
unfoldable pub emit : ℕ → ℕ → String → String
unfolding digit
emit zero n s = s
emit (suc fuel) n s =
    let rest = emit fuel (n / 10) (cons (digit (n % 10)) s) in if eqb n 0 then s else rest

-- `fmt.Sprintf("%d", n)` and `strconv.Itoa(n)` of a number that is not negative.
unfoldable pub format : ℕ → String
format n = if eqb n 0 then "0" else emit (suc n) n ""

-- The number that the digits of `s` spell behind `n`, if there is no other character and it is at most
-- `max`.
unfoldable pub scan : ℕ → String → ℕ → Option ℕ
scan max String.[] n = some n
scan max (String.◌∷◌ c s) n =
    let d = code c - 48 in
    let rest = scan max s (n * 10 + d) in
    if ltb (code c) 48 || ltb 57 (code c) then none else if ltb max (n * 10 + d) then none else rest

-- `strconv.ParseUint(s, 10, bits)`, with `max` for the largest number of that many bits.
unfoldable pub parse_uint : ℕ → String → Option ℕ
unfolding scan
parse_uint max s = if s == "" then none else scan max s 0

-- Whether `strconv.Atoi(s)` succeeds: an optional sign, and digits in the range of an int64.
unfoldable pub is_int : String → Bool
unfolding parse_uint
is_int String.[] = false
is_int (String.◌∷◌ c s) =
    if eqb (code c) b'-'
    then not (is_none (parse_uint (2 ^ 63) s))
    else not (is_none (parse_uint (2 ^ 63 - 1) (if eqb (code c) b'+' then s else cons c s)))
