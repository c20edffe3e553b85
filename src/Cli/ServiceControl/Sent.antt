-- ===== src/Cli/ServiceControl/Sent.antt =====
-- The extra configuration that `microovn enable` sends.
use microovn.Prelude.{
  String, Bool, Option, none, some, List, [], ◌∷◌, ◌++◌, ◌==◌, ◌≡◌, ◌≢◌, refl, sym, ap, ◌∙◌, inl,
  inr, arith, eq_iff, Option-cases, Bool-cases,
}
use microovn.Effect.{Result-cases, ok}
use microovn.Types.{
  ExtraBgpConfig, parse_external_connection, parse_bridge, from_map, empty_bgp_config, srv_bgp,
}
use microovn.Types.FromMap.{Values, set_value, values, Holds, set_options-Holds, from_map-ok}
use microovn.Types.Validation.{IsValidConfig, validate_iff}
use microovn.Cli.ServiceControl.{cut, parse_pairs, choose_config, parse_extra_config}

abbrev pub unset : Values
unset name = none

abbrev set_pair : Option (String × String) → Values → Values
set_pair none get = get
set_pair (some (key, value)) get = set_value key value get

-- The values that the flags --config give to the options.
unfoldable pub given : Values → List String → Values
given get [] = get
given get (text ∷ texts) = given (set_pair (cut b'=' text) get) texts

values-append :
    (get : Values) (raw : List (String × String)) (key value : String)
    → values get (raw ++ (key, value) ∷ []) ≡ set_value key value (values get raw)
unfolding values
values-append get [] key value = refl
values-append get ((k, v) ∷ raw) key value = values-append (set_value k v get) raw key value

-- The pairs that are read give the options the values that the flags give them.
parse_pairs-given :
    (raw out : List (String × String)) (texts : List String)
    → parse_pairs raw texts ≡ ok out
    → values unset out ≡ given (values unset raw) texts
unfolding parse_pairs given
parse_pairs-given raw out [] h = let e : raw ≡ out = cc in rw e refl
parse_pairs-given raw out (text ∷ texts) h = elim (Option-cases (cut b'=' text)) [
  | inl p ↦ absurd (ground arith)
  | inr ((key, value), p) ↦
      let next = raw ++ (key, value) ∷ [] in
      let q : parse_pairs next texts ≡ ok out = ground arith in
      rw p (
        parse_pairs-given next out texts q
        ∙ ap (λ g. given g texts) (values-append unset raw key value))
]

append-ne-nil : (raw : List (String × String)) (r : String × String) → raw ++ r ∷ [] ≢ []
append-ne-nil [] r h = cc
append-ne-nil (q ∷ raw) r h = cc

parse_pairs-ne-nil :
    (raw : List (String × String)) (r : String × String) (texts : List String)
    → parse_pairs (raw ++ r ∷ []) texts ≢ ok []
unfolding parse_pairs
parse_pairs-ne-nil raw r [] h = append-ne-nil raw r (ground arith)
parse_pairs-ne-nil raw r (text ∷ texts) h = elim (Option-cases (cut b'=' text)) [
  | inl p ↦ absurd (ground arith)
  | inr ((key, value), p) ↦ parse_pairs-ne-nil (raw ++ r ∷ []) (key, value) texts (ground arith)
]

-- No flag is dropped.
parse_pairs-nil : (texts : List String) → parse_pairs [] texts ≡ ok [] → texts ≡ []
unfolding parse_pairs
parse_pairs-nil [] h = refl
parse_pairs-nil (text ∷ texts) h = elim (Option-cases (cut b'=' text)) [
  | inl p ↦ absurd (ground arith)
  | inr ((key, value), p) ↦ absurd (parse_pairs-ne-nil [] (key, value) texts (ground arith))
]

-- The flag of manual configuration is not looked at by `Validate`.
valid_manual :
    (manual : Bool) (c : ExtraBgpConfig)
    → IsValidConfig c
    → IsValidConfig (record c { manual_bgpd_config = manual })
unfolding parse_external_connection parse_bridge
valid_manual manual c v = record { vrf = v.vrf; asn = v.asn; range = v.range; names = v.names }

-- What is sent for the flags: nothing without --config, and else a configuration of BGP with the given
-- values, and the flag --manual-bgpd-config, that the daemon accepts.
abbrev pub Sent : Bool → List String → String → Option ExtraBgpConfig → Type 0
Sent manual texts service none = texts ≡ []
Sent manual texts service (some c) =
    (service ≡ srv_bgp)
    × Holds (given unset texts) c
    × (c.manual_bgpd_config ≡ manual)
    × IsValidConfig c

flag_kept :
    (get : Values) (manual : Bool) (c : ExtraBgpConfig)
    → Holds get c
    → Holds get (record c { manual_bgpd_config = manual })
flag_kept get manual c h = record {
  connection = h.connection;
  bridge = h.bridge;
  vrf = h.vrf;
  asn = h.asn;
  range = h.range;
}

choose_config-Sent :
    (manual : Bool) (texts : List String) (service : String) (raw : List (String × String))
    (r : Option ExtraBgpConfig)
    → parse_pairs [] texts ≡ ok raw
    → choose_config manual service raw ≡ ok r
    → Sent manual texts service r
unfolding choose_config values
choose_config-Sent manual texts service [] r p h =
    let e : r ≡ none = ground arith in rw e (parse_pairs-nil texts p)
choose_config-Sent manual texts service (x ∷ raw) r p h = elim (Bool-cases (service == srv_bgp)) [
  | inr q ↦ absurd (ground arith)
  | inl q ↦ elim (Result-cases (from_map empty_bgp_config (x ∷ raw))) [
    | inl (c, t) ↦
        let e : r ≡ some (record c { manual_bgpd_config = manual }) = ground arith in
        let (o, v) = from_map-ok empty_bgp_config c (x ∷ raw) t in
        let g = set_options-Holds unset empty_bgp_config c (x ∷ raw) o (record {
          connection = refl;
          bridge = refl;
          vrf = refl;
          asn = refl;
          range = (refl, refl);
        }) in
        let y : Holds (given unset texts) c = rw (sym (parse_pairs-given [] (x ∷ raw) texts p)) g in
        rw e (
          (eq_iff service srv_bgp).0 q,
          flag_kept (given unset texts) manual c y,
          refl,
          valid_manual manual c ((validate_iff c).0 v),
        )
    | inr (inl (f, t)) ↦ absurd (ground arith)
    | inr (inr t) ↦ absurd (ground arith)
  ]
]

-- If the flags of `microovn enable` are accepted, nothing is sent with the request where no --config was
-- given; else the service is BGP, and a configuration is sent that holds the value which the flags give
-- to each option and the flag --manual-bgpd-config, and is valid.
pub parse_extra_config-Sent :
    (manual : Bool) (texts : List String) (service : String) (r : Option ExtraBgpConfig)
    → parse_extra_config manual texts service ≡ ok r
    → Sent manual texts service r
unfolding parse_extra_config
parse_extra_config-Sent manual texts service r h = elim (Result-cases (parse_pairs [] texts)) [
  | inl (raw, p) ↦ choose_config-Sent manual texts service raw r p (ground arith)
  | inr (inl (e, p)) ↦ absurd (ground arith)
  | inr (inr p) ↦ absurd (ground arith)
]
