-- ===== src/Cli/Init/Services.antt =====
-- The services that `microovn init` accepts, and those that the hooks of the daemon can read.
use microovn.Prelude.{
  String, Bool, true, false, ◌&&◌, ◌||◌, Option, none, some, is_none, List, [], ◌∷◌, ◌==◌, ltb, all,
  length, ◌≡◌, ◌↔◌, ◌⊎◌, refl, sym, ap, ◌∙◌, arith, inl, inr, Bool-cases, eq_iff, eq_comm,
}
use microovn.Text.{◌<>◌, join, split, contains}
use microovn.Text.Split.{join-split}
use microovn.Effect.{ok, Error, errorf}
use microovn.Cli.Init.{valid_services, check_services, validate_services}
use microovn.Hooks.Requested.{
  RequestedServices, request_each, no_services, or_fail, new_requested_services,
}

abbrev is_role : String → Bool
is_role s = s == "central" || s == "chassis" || s == "switch"

request_each-is_none :
    (parts : List String) (r : RequestedServices) (e : Option Error)
    → is_none (request_each r e parts).1 ≡ (is_none e && all is_role parts)
unfolding request_each
request_each-is_none [] r none = refl
request_each-is_none [] r (some e) = refl
request_each-is_none (part ∷ parts) r e = ground (
  arith,
  request_each-is_none parts (record r { central = true }) e,
  request_each-is_none parts (record r { chassis = true }) e,
  request_each-is_none parts (record r { switch = true }) e,
  request_each-is_none parts r (some (errorf ("invalid service requested: " <> part))),
)

contains-valid : (s : String) → contains valid_services s ≡ (is_role s || s == "auto")
unfolding contains
contains-valid s =
    ground (arith, eq_comm "central" s, eq_comm "chassis" s, eq_comm "switch" s, eq_comm "auto" s)

auto_role : (s : String) → (s == "auto") ≡ true → is_role s ≡ false
auto_role s h = ap is_role ((eq_iff s "auto").0 h)

check_services-step :
    (part : String) (parts : List String)
    → check_services true (part ∷ parts) ≡ ok tt
    → (is_role part ≡ true) × (check_services true parts ≡ ok tt)
unfolding check_services
check_services-step part parts h = elim (Bool-cases (contains valid_services part)) [
  | inl p ↦ elim (Bool-cases (part == "auto")) [
    | inl q ↦ absurd (ground arith)
    | inr q ↦ (ground (arith, contains-valid part), ground arith)
  ]
  | inr p ↦ absurd (ground arith)
]

step-check_services :
    (several : Bool) (part : String) (parts : List String)
    → is_role part ≡ true
    → check_services several parts ≡ ok tt
    → check_services several (part ∷ parts) ≡ ok tt
unfolding check_services
step-check_services several part parts r h = elim (Bool-cases (part == "auto")) [
  | inl q ↦ absurd (ground (arith, auto_role part q))
  | inr q ↦
      let p : contains valid_services part ≡ true = contains-valid part ∙ (ground arith) in
      rw (p, q) h
]

-- Of several services, each has to be one of the three.
check_services-all :
    (parts : List String) → check_services true parts ≡ ok tt → all is_role parts ≡ true
check_services-all [] h = refl
check_services-all (part ∷ parts) h =
    let (r, k) = check_services-step part parts h in ground (arith, check_services-all parts k)

all-check_services :
    (several : Bool) (parts : List String)
    → all is_role parts ≡ true
    → check_services several parts ≡ ok tt
unfolding check_services
all-check_services several [] h = refl
all-check_services several (part ∷ parts) h =
    step-check_services several part parts (ground arith)
      (all-check_services several parts (ground arith))

abbrev pub Requested : String → Type 0
Requested s = (r : RequestedServices) × (new_requested_services s ≡ ok r)

or_fail-none : (p : RequestedServices × Option Error) → is_none p.1 ≡ true → or_fail p ≡ ok p.0
or_fail-none (r, none) h = refl
or_fail-none (r, some e) h = absurd (ground arith)

none-or_fail :
    (p : RequestedServices × Option Error) (r : RequestedServices)
    → or_fail p ≡ ok r
    → is_none p.1 ≡ true
none-or_fail (q, none) r h = refl
none-or_fail (q, some e) r h = absurd (ground arith)

roles-Requested : (s : String) → all is_role (split b',' s) ≡ true → Requested s
unfolding new_requested_services
roles-Requested s h = (
  (request_each no_services none (split b',' s)).0,
  or_fail-none (request_each no_services none (split b',' s))
      (request_each-is_none (split b',' s) no_services none ∙ h),
)

Requested-roles : (s : String) → Requested s → all is_role (split b',' s) ≡ true
unfolding new_requested_services
Requested-roles s (r, h) =
    sym (request_each-is_none (split b',' s) no_services none)
    ∙ none-or_fail (request_each no_services none (split b',' s)) r h

accepted_parts :
    (s : String) (parts : List String)
    → split b',' s ≡ parts
    → check_services (ltb 1 (length parts)) parts ≡ ok tt
    → (s ≡ "auto") ⊎ (all is_role parts ≡ true)
unfolding check_services join
accepted_parts s [] e h = inr refl
accepted_parts s (part ∷ []) e h = elim (Bool-cases (part == "auto")) [
  | inl p ↦ inl (sym (join-split "," s) ∙ ap (join ",") e ∙ (eq_iff part "auto").0 p)
  | inr p ↦ inr (ground (arith, contains-valid part))
]
accepted_parts s (part ∷ next ∷ parts) e h =
    let several : ltb 1 (length (part ∷ next ∷ parts)) ≡ true = ground arith in
    inr (
      check_services-all (part ∷ next ∷ parts)
        (ap (λ b. check_services b (part ∷ next ∷ parts)) (sym several) ∙ h))

-- The services that `microovn init` accepts are `auto`, which the hooks of the daemon look for first, and
-- exactly those lists that newRequestedServices of the daemon can read.
pub validate_services_iff :
    (s : String) → (validate_services s ≡ ok tt) ↔ ((s ≡ "auto") ⊎ Requested s)
unfolding validate_services
validate_services_iff s = (
  λ h. elim (accepted_parts s (split b',' s) refl h) [
    | inl e ↦ inl e
    | inr r ↦ inr (roles-Requested s r)
  ],
  λ h. elim h [
    | inl e ↦ ap validate_services e ∙ (unfold check_services contains split in refl)
    | inr r ↦ all-check_services _ (split b',' s) (Requested-roles s r)
  ],
)
