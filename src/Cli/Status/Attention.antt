-- ===== src/Cli/Status/Attention.antt =====
-- When the status report asks for attention.
use microovn.Prelude.{
  String, Bool, true, false, not, ◌&&◌, List, [], ◌∷◌, ◌==◌, any, all, length, ◌≡◌, refl, sym, ap,
  ◌∙◌, arith, inl, inr, Bool-cases, eq_iff, eq_refl, eq_comm,
}
use microovn.Effect.{ok}
use microovn.Cli.Status.{
  SchemaVersionResult, has_error, distinct, last_version, requires_attention, agrees,
}

abbrev versions_are : String → List SchemaVersionResult → Bool
versions_are d nodes = all (λ node. node.schema_version == d) nodes

-- Versions that are all the same are one version.
distinct-same :
    (d : String) (node : SchemaVersionResult) (nodes : List SchemaVersionResult)
    → versions_are d (node ∷ nodes) ≡ true
    → distinct (node ∷ nodes) ≡ d ∷ []
unfolding distinct
distinct-same d node [] h = ap (λ v. v ∷ []) ((eq_iff node.schema_version d).0 (ground arith))
distinct-same d node (next ∷ nodes) h =
    let e : node.schema_version ≡ d = (eq_iff node.schema_version d).0 (ground arith) in
    let rest : distinct (next ∷ nodes) ≡ d ∷ [] = distinct-same d next nodes (ground arith) in
    ground (arith, eq_refl d)

distinct-nil : (nodes : List SchemaVersionResult) → distinct nodes ≡ [] → nodes ≡ []
unfolding distinct
distinct-nil [] h = refl
distinct-nil (node ∷ nodes) h =
    elim (Bool-cases (any (λ v. v == node.schema_version) (distinct nodes))) [
      | inl p ↦ absurd (ground arith)
      | inr p ↦ absurd (ground arith)
    ]

distinct-single :
    (d : String) (nodes : List SchemaVersionResult)
    → distinct nodes ≡ d ∷ []
    → versions_are d nodes ≡ true
unfolding distinct
distinct-single d [] h = refl
distinct-single d (node ∷ nodes) h =
    elim (Bool-cases (any (λ v. v == node.schema_version) (distinct nodes))) [
      | inl p ↦
          let r : distinct nodes ≡ d ∷ [] = ground arith in
          ground (arith, distinct-single d nodes r, eq_comm d node.schema_version)
      | inr p ↦
          let e : nodes ≡ [] = distinct-nil nodes (ground arith) in
          let q : node.schema_version ≡ d = ground arith in
          ground (arith, (eq_iff node.schema_version d).1 q)
    ]

last-same :
    (d v : String) (node : SchemaVersionResult) (nodes : List SchemaVersionResult)
    → versions_are d (node ∷ nodes) ≡ true
    → last_version v (node ∷ nodes) ≡ d
unfolding last_version
last-same d v node [] h = (eq_iff node.schema_version d).0 (ground arith)
last-same d v node (next ∷ nodes) h = last-same d node.schema_version next nodes (ground arith)

all-agrees :
    (d : String) (nodes : List SchemaVersionResult)
    → all (agrees d) nodes ≡ (not (any has_error nodes) && versions_are d nodes)
all-agrees d [] = refl
all-agrees d (node ∷ nodes) = ground (arith, all-agrees d nodes)

-- One version that all members expect: it is the one that is active, or attention is required.
one_version :
    (active d : String) (node : SchemaVersionResult) (nodes : List SchemaVersionResult)
    → distinct (node ∷ nodes) ≡ d ∷ []
    → not (active == last_version "0.0" (node ∷ nodes)) ≡ not (versions_are active (node ∷ nodes))
one_version active d node nodes h =
    let same : versions_are d (node ∷ nodes) ≡ true = distinct-single d (node ∷ nodes) h in
    let last : last_version "0.0" (node ∷ nodes) ≡ d = last-same d "0.0" node nodes same in
    elim (Bool-cases (versions_are active (node ∷ nodes))) [
      | inl p ↦ ground (arith, last-same active "0.0" node nodes p, eq_refl active)
      | inr p ↦ elim (Bool-cases (active == last_version "0.0" (node ∷ nodes))) [
        | inl q ↦
            let e : active ≡ d = (eq_iff active (last_version "0.0" (node ∷ nodes))).0 q ∙ last in
            absurd (ground (arith, ap (λ v. versions_are v (node ∷ nodes)) e))
        | inr q ↦ ground arith
      ]
    ]

-- Two versions or more: they are not all the active one.
several_versions :
    (active d e : String) (ds : List String) (node : SchemaVersionResult)
    (nodes : List SchemaVersionResult)
    → distinct (node ∷ nodes) ≡ d ∷ e ∷ ds
    → versions_are active (node ∷ nodes) ≡ false
several_versions active d e ds node nodes h =
    elim (Bool-cases (versions_are active (node ∷ nodes))) [
      | inl p ↦
          let q = distinct-same active node nodes p in
          absurd (ground (arith, ap (λ l. length l) (sym q ∙ h)))
      | inr p ↦ p
    ]

attention :
    (ds : List String) (active : String) (node : SchemaVersionResult)
    (nodes : List SchemaVersionResult)
    → distinct (node ∷ nodes) ≡ ds
    → any has_error (node ∷ nodes) ≡ false
    → requires_attention active (node ∷ nodes) ≡ ok (not (versions_are active (node ∷ nodes)))
unfolding requires_attention
attention [] active node nodes h k = absurd (ground (arith, distinct-nil (node ∷ nodes) h))
attention (d ∷ []) active node nodes h k = rw (k, h) (ap ok (one_version active d node nodes h))
attention (d ∷ e ∷ ds) active node nodes h k =
    rw (k, h, several_versions active d e ds node nodes h) (ground arith)

-- For a report on one or more members, attention is required unless every member has answered without
-- an error and expects the version that is active.
pub requires_attention-agrees :
    (active : String) (node : SchemaVersionResult) (nodes : List SchemaVersionResult)
    → requires_attention active (node ∷ nodes) ≡ ok (not (all (agrees active) (node ∷ nodes)))
unfolding requires_attention
requires_attention-agrees active node nodes = elim (Bool-cases (any has_error (node ∷ nodes))) [
  | inl p ↦ ground (arith, all-agrees active (node ∷ nodes))
  | inr p ↦
      attention (distinct (node ∷ nodes)) active node nodes refl p
      ∙ ap (λ b. ok (not b)) (ground (arith, all-agrees active (node ∷ nodes)))
]
