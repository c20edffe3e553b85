-- ===== src/Types/Validation.antt =====
-- What `Validate` accepts.
use microovn.Prelude.{
  ℕ, ◌+◌, ◌≤◌, ◌<◌, String, true, ◌||◌, not, is_none, length, ◌==◌, ◌≡◌, ◌↔◌, ◌⊎◌, arith, List,
}
use microovn.Text.{is_int, parse_uint}
use microovn.Effect.{ok}
use microovn.Types.{
  ExtraBgpConfig, validate, validate_range, max_uint32, parse_external_connection, parse_bridge,
  from_map,
}

-- The ranges of RFC 6996 that the program accepts; two zeros stand for no range.
abbrev pub PrivateRange : ℕ → ℕ → Type 0
PrivateRange min max =
    ((min ≡ 0) × (max ≡ 0)) ⊎ ((4200000000 ≤ min) × (min < max) × (max ≤ 4294967294))

pub record IsValidConfig (c : ExtraBgpConfig) : Type 0 where
  pub vrf : (c.vrf == "" || is_int c.vrf) ≡ true
  pub asn : (c.asn == "" || not (is_none (parse_uint max_uint32 c.asn))) ≡ true
  pub range : PrivateRange c.asn_min c.asn_max
  pub names : 0 < length (parse_external_connection c) + length (parse_bridge c)

validate_range-ok :
    (c : ExtraBgpConfig) → validate_range c ≡ ok tt → PrivateRange c.asn_min c.asn_max
unfolding validate_range
validate_range-ok c h = ground arith

ok-validate_range :
    (c : ExtraBgpConfig) → PrivateRange c.asn_min c.asn_max → validate_range c ≡ ok tt
unfolding validate_range
ok-validate_range c h = ground arith

-- `Validate` accepts exactly the configurations with a numeric VRF, a 32-bit ASN, a private ASN range
-- and at least one connection or bridge, each of the first three optional.
pub validate_iff : (c : ExtraBgpConfig) → (validate c ≡ ok tt) ↔ IsValidConfig c
unfolding validate
validate_iff c = (
  λ h. record {
    vrf = ground arith;
    asn = ground arith;
    range = validate_range-ok c (ground arith);
    names = ground arith;
  },
  λ v. ground (arith, ok-validate_range c v.range),
)

-- What `FromMap` returns has passed `Validate`.
pub from_map-IsValidConfig :
    (c d : ExtraBgpConfig) (raw : List (String × String)) → from_map c raw ≡ ok d → IsValidConfig d
unfolding from_map
from_map-IsValidConfig c d raw h = (validate_iff d).0 (ground arith)
