-- ===== src/Types/FromMap.antt =====
-- What `FromMap` makes of the options.
use microovn.Prelude.{
  ℕ, String, Option, none, some, List, [], ◌∷◌, ◌==◌, ◌≡◌, refl, sym, inl, inr, arith, eq_iff,
  Bool-cases, if◌then◌else◌,
}
use microovn.Effect.{Result-cases, ok}
use microovn.Types.{
  ExtraBgpConfig, validate, set_option, set_options, from_map, parse_asn_range, set_range, checked,
}

-- The values of the options, where they have one.
abbrev pub Values : Type 0
Values = String → Option String

abbrev pub set_value : String → String → Values → Values
set_value key value get name = if key == name then some value else get name

-- The values with those of the pairs; the last one of a key counts.
unfoldable pub values : Values → List (String × String) → Values
values get [] = get
values get ((key, value) ∷ rest) = values (set_value key value get) rest

abbrev or_empty : Option String → String
or_empty none = ""
or_empty (some s) = s

-- The range is the one that the option spells, or two zeros.
abbrev pub Spells : Option String → ℕ → ℕ → Type 0
Spells none min max = (min ≡ 0) × (max ≡ 0)
Spells (some s) min max = parse_asn_range s ≡ ok (min, max)

-- The configuration holds the values of the options and nothing else.
pub record Holds (get : Values) (c : ExtraBgpConfig) : Type 0 where
  pub connection : c.external_connection ≡ or_empty (get "ext_connection")
  pub bridge : c.bridge ≡ or_empty (get "br")
  pub vrf : c.vrf ≡ or_empty (get "vrf")
  pub asn : c.asn ≡ or_empty (get "asn")
  pub range : Spells (get "asn_range") c.asn_min c.asn_max

set_option-Holds :
    (get : Values) (c d : ExtraBgpConfig) (key value : String)
    → set_option c key value ≡ ok d
    → Holds get c
    → Holds (set_value key value get) d
unfolding set_option set_range
set_option-Holds get c d key value h g = elim (Bool-cases (key == "ext_connection")) [
  | inl p0 ↦
      let k : key ≡ "ext_connection" = (eq_iff key "ext_connection").0 p0 in
      let e : d ≡ record c { external_connection = value } = ground arith in
      rw (e, k)
        (record { connection = refl; bridge = g.bridge; vrf = g.vrf; asn = g.asn; range = g.range })
  | inr p0 ↦ elim (Bool-cases (key == "br")) [
    | inl p1 ↦
        let k : key ≡ "br" = (eq_iff key "br").0 p1 in
        let e : d ≡ record c { bridge = value } = ground arith in
        rw (e, k)
          (record {
            connection = g.connection;
            bridge = refl;
            vrf = g.vrf;
            asn = g.asn;
            range = g.range;
          })
    | inr p1 ↦ elim (Bool-cases (key == "vrf")) [
      | inl p2 ↦
          let k : key ≡ "vrf" = (eq_iff key "vrf").0 p2 in
          let e : d ≡ record c { vrf = value } = ground arith in
          rw (e, k)
            (record {
              connection = g.connection;
              bridge = g.bridge;
              vrf = refl;
              asn = g.asn;
              range = g.range;
            })
      | inr p2 ↦ elim (Bool-cases (key == "asn")) [
        | inl p3 ↦
            let k : key ≡ "asn" = (eq_iff key "asn").0 p3 in
            let e : d ≡ record c { asn = value } = ground arith in
            rw (e, k)
              (record {
                connection = g.connection;
                bridge = g.bridge;
                vrf = g.vrf;
                asn = refl;
                range = g.range;
              })
        | inr p3 ↦ elim (Bool-cases (key == "asn_range")) [
          | inr p4 ↦ absurd (ground arith)
          | inl p4 ↦
              let k : key ≡ "asn_range" = (eq_iff key "asn_range").0 p4 in
              elim (Result-cases (parse_asn_range value)) [
                | inl ((min, max), q) ↦
                    let e : d ≡ record c { asn_min = min; asn_max = max } = ground arith in
                    rw (e, k)
                      (record {
                        connection = g.connection;
                        bridge = g.bridge;
                        vrf = g.vrf;
                        asn = g.asn;
                        range = q;
                      })
                | inr (inl (f, q)) ↦ absurd (ground arith)
                | inr (inr q) ↦ absurd (ground arith)
              ]
        ]
      ]
    ]
  ]
]

pub set_options-Holds :
    (get : Values) (c d : ExtraBgpConfig) (raw : List (String × String))
    → set_options c raw ≡ ok d
    → Holds get c
    → Holds (values get raw) d
unfolding set_options values
set_options-Holds get c d [] h g = (let e : c ≡ d = cc in rw (sym e) g)
set_options-Holds get c d ((key, value) ∷ rest) h g = elim (Result-cases (set_option c key value)) [
  | inl (e, p) ↦
      set_options-Holds (set_value key value get) e d rest (ground arith)
        (set_option-Holds get c e key value p g)
  | inr (inl (e, p)) ↦ absurd (ground arith)
  | inr (inr p) ↦ absurd (ground arith)
]

-- A map that `FromMap` accepts is one whose loop succeeds, with a result that passes `Validate`.
pub from_map-ok :
    (c d : ExtraBgpConfig) (raw : List (String × String))
    → from_map c raw ≡ ok d
    → (set_options c raw ≡ ok d) × (validate d ≡ ok tt)
unfolding from_map checked
from_map-ok c d raw h = elim (Result-cases (set_options c raw)) [
  | inl (e, p) ↦ elim (Result-cases (validate e)) [
    | inl (u, q) ↦ (ground arith, ground arith)
    | inr (inl (e, q)) ↦ absurd (ground arith)
    | inr (inr q) ↦ absurd (ground arith)
  ]
  | inr (inl (e, p)) ↦ absurd (ground arith)
  | inr (inr p) ↦ absurd (ground arith)
]
