-- ===== src/Types/AsnRange.antt =====
-- The option `asn_range` and its print.
use microovn.Prelude.{ℕ, ◌≤◌, ◌≡◌, refl, arith}
use microovn.Text.{◌<>◌, cons, format}
use microovn.Text.Split.{split_one, split_first}
use microovn.Text.Decimal.{format-lacks, parse_uint-format}
use microovn.Effect.{ok}
use microovn.Types.{parse_asn_range, max_uint32}

-- A range of two 32-bit numbers is read back from "min-max", as the cluster configuration stores it.
pub parse_asn_range-format :
    (min max : ℕ)
    → min ≤ max_uint32
    → max ≤ max_uint32
    → parse_asn_range (format min <> cons "-" (format max)) ≡ ok (min, max)
unfolding parse_asn_range
parse_asn_range-format min max h k = rw (
  split_first b'-' "-" (format min) (format max) refl (format-lacks min b'-' (omega arith)),
  split_one b'-' (format max) (format-lacks max b'-' (omega arith)),
  parse_uint-format max_uint32 min h,
  parse_uint-format max_uint32 max k,
)
