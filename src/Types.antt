-- ===== src/Types.antt =====
-- microovn/api/types/services.go: the names of the services, and the configuration of the BGP service
-- with its parsers and its validation.
pub mod AsnRange
pub mod FromMap
pub mod Validation
use microovn.Prelude.{
  ℕ, ◌+◌, String, Bool, true, false, ◌||◌, not, Option, none, some, List, [], ◌∷◌, ◌==◌, eqb, ltb,
  leb, length, if◌then◌else◌, is_none,
}
use microovn.Text.{◌<>◌, split, trim_space, contains, parse_uint, is_int, format}
use microovn.Effect.{Result, ok, err, panic, errorf, Error}

abbrev pub srv_chassis : String
srv_chassis = "chassis"

abbrev pub srv_central : String
srv_central = "central"

abbrev pub srv_switch : String
srv_switch = "switch"

abbrev pub srv_bgp : String
srv_bgp = "bgp"

-- `ServiceNames`
abbrev pub service_names : List String
service_names = srv_bgp ∷ srv_chassis ∷ srv_central ∷ srv_switch ∷ []

-- `CheckValidService`
unfoldable pub check_valid_service : String → Bool
unfolding contains
check_valid_service service = contains service_names service

-- `WarningSet`
pub record WarningSet : Type 0 where
  pub even_central : Bool
  pub few_central : Bool

-- `ExtraBgpConfig`
pub record ExtraBgpConfig : Type 0 where
  pub external_connection : String
  pub bridge : String
  pub vrf : String
  pub asn : String
  pub asn_min : ℕ
  pub asn_max : ℕ
  pub manual_bgpd_config : Bool

abbrev pub empty_bgp_config : ExtraBgpConfig
empty_bgp_config = record {
  external_connection = "";
  bridge = "";
  vrf = "";
  asn = "";
  asn_min = 0;
  asn_max = 0;
  manual_bgpd_config = false;
}

abbrev pub max_uint32 : ℕ
max_uint32 = 4294967295

or_error : Option ℕ → String → Result ℕ
or_error none m = err (errorf m)
or_error (some n) m = ok n

parse_bounds : Result ℕ → Result ℕ → Result (ℕ × ℕ)
parse_bounds (ok a) (ok b) = ok (a, b)
parse_bounds (ok a) (err e) = err e
parse_bounds (ok a) panic = panic
parse_bounds (err e) r = err e
parse_bounds panic r = panic

parse_parts : String → List String → Result (ℕ × ℕ)
unfolding or_error parse_bounds
parse_parts text (min ∷ max ∷ []) =
    parse_bounds
      (or_error (parse_uint max_uint32 min) ("option 'asn_range' min value is not valid: " <> min))
      (or_error (parse_uint max_uint32 max) ("option 'asn_range' max value is not valid: " <> max))
parse_parts text parts = err (errorf ("option 'asn_range' must be in format 'min-max': " <> text))

-- `ParseAsnRange`
unfoldable pub parse_asn_range : String → Result (ℕ × ℕ)
unfolding parse_parts
parse_asn_range text = parse_parts text (split b'-' text)

-- `validateAsnRange`
unfoldable pub validate_asn_range : ℕ → ℕ → Result (Unit {0})
validate_asn_range min max =
    if leb max min
    then err (
        errorf
          ("option 'asn_range' min must be less than max: " <> format min <> "-" <> format max))
    else if ltb min 4200000000 || ltb 4294967294 max
    then err (
        errorf (
          "option 'asn_range' must be within RFC 6996 range (4200000000-4294967294): "
          <> format min
          <> "-"
          <> format max))
    else ok tt

-- The names between the commas of an option, without the blank ones.
unfoldable pub parse_names : List String → List String
parse_names [] = []
parse_names (part ∷ parts) =
    let rest = parse_names parts in
    let name = trim_space part in if name == "" then rest else name ∷ rest

-- `ParseExternalConnection`
unfoldable pub parse_external_connection : ExtraBgpConfig → List String
unfolding parse_names
parse_external_connection c = parse_names (split b',' c.external_connection)

-- `ParseBridge`
unfoldable pub parse_bridge : ExtraBgpConfig → List String
unfolding parse_names
parse_bridge c = parse_names (split b',' c.bridge)

validate_names : ExtraBgpConfig → Result (Unit {0})
validate_names c =
    if eqb (length (parse_external_connection c) + length (parse_bridge c)) 0
    then err (errorf "external connections or bridges have to be set")
    else ok tt

and_then : Result (Unit {0}) → Result (Unit {0}) → Result (Unit {0})
and_then (ok u) r = r
and_then (err e) r = err e
and_then panic r = panic

validate_range : ExtraBgpConfig → Result (Unit {0})
unfolding validate_asn_range
validate_range c =
    if not (eqb c.asn_min 0) || not (eqb c.asn_max 0)
    then validate_asn_range c.asn_min c.asn_max
    else ok tt

-- `Validate`
unfoldable pub validate : ExtraBgpConfig → Result (Unit {0})
unfolding validate_names and_then validate_range
validate c =
    if not (c.vrf == "" || is_int c.vrf)
    then err (errorf ("option 'vrf' is not a number: " <> c.vrf))
    else if not (c.asn == "" || not (is_none (parse_uint max_uint32 c.asn)))
    then err (errorf ("option 'asn' is not a valid number: " <> c.asn))
    else and_then (validate_range c) (validate_names c)

set_range : ExtraBgpConfig → Result (ℕ × ℕ) → Result ExtraBgpConfig
set_range c (ok (min, max)) = ok (record c { asn_min = min; asn_max = max })
set_range c (err e) = err e
set_range c panic = panic

-- One round of the loop of `FromMap`.
unfoldable pub set_option : ExtraBgpConfig → String → String → Result ExtraBgpConfig
unfolding set_range
set_option c key value =
    if key == "ext_connection"
    then ok (record c { external_connection = value })
    else if key == "br"
    then ok (record c { bridge = value })
    else if key == "vrf"
    then ok (record c { vrf = value })
    else if key == "asn"
    then ok (record c { asn = value })
    else if key == "asn_range"
    then set_range c (parse_asn_range value)
    else err (errorf ("unknown BGP config option: " <> key))

-- The loop of `FromMap` over the pairs of the map, in the order in which it meets them.
unfoldable pub set_options : ExtraBgpConfig → List (String × String) → Result ExtraBgpConfig
unfolding set_option
set_options c [] = ok c
set_options c ((key, value) ∷ rest) = elim (set_option c key value) [
  | ok d ↦ set_options d rest
  | err e ↦ err e
  | panic ↦ panic
]

unfoldable pub checked : Result ExtraBgpConfig → Result ExtraBgpConfig
checked (ok c) = elim (validate c) [ ok u ↦ ok c | err e ↦ err e | panic ↦ panic ]
checked (err e) = err e
checked panic = panic

-- `FromMap`
unfoldable pub from_map : ExtraBgpConfig → List (String × String) → Result ExtraBgpConfig
unfolding set_options checked
from_map c raw = checked (set_options c raw)
