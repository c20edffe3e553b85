-- ===== src/Cli/ServiceControl.antt =====
-- microovn/cmd/microovn/service_control.go: the commands that enable and disable a service.
pub mod Sent
use microovn.Prelude.{
  ℕ, String, Char, Bool, true, false, not, any, Option, none, some, List, [], ◌∷◌, ◌++◌, ◌==◌, eqb,
  code, if◌then◌else◌,
}
use microovn.Text.{◌<>◌, cons}
use microovn.Types.{ExtraBgpConfig, from_map, empty_bgp_config, srv_bgp}
use microovn.Effect.{Env, Result, ok, err, panic, M, ret, call, issue, lift, errorf, ◌>>=◌, ◌>>◌}
use microovn.Client.{Decoders, request_enable, request_disable}
use microovn.Cli.Printing.{say, print_warnings, print_env}

abbrev cut_behind : Char → Option (String × String) → Option (String × String)
cut_behind c none = none
cut_behind c (some (key, value)) = some (cons c key, value)

-- `strings.Cut(s, sep)` with a separator of one character, and nothing if it is not found.
unfoldable pub cut : ℕ → String → Option (String × String)
cut sep String.[] = none
cut sep (String.◌∷◌ c s) =
    let rest = cut sep s in if eqb (code c) sep then some ("", s) else cut_behind c rest

-- `rawConfig[key]` exists.
unfoldable pub has_key : String → List (String × String) → Bool
has_key key raw = any (λ (r : String × String). r.0 == key) raw

-- The loop of `parseExtraConfig`, with the pairs that it has read.
unfoldable pub parse_pairs : List (String × String) → List String → Result (List (String × String))
unfolding cut has_key
parse_pairs raw [] = ok raw
parse_pairs raw (text ∷ rest) = elim (cut b'=' text) [
  | none ↦
      err (errorf ("configuration '" <> text <> "' does not conform to the 'key=value' format"))
  | some (key, value) ↦
      let next = parse_pairs (raw ++ (key, value) ∷ []) rest in
      if has_key key raw then err (errorf ("configuration '" <> key <> "' already set")) else next
]

abbrev with_manual : Bool → Result ExtraBgpConfig → Result (Option ExtraBgpConfig)
with_manual manual (ok c) = ok (some (record c { manual_bgpd_config = manual }))
with_manual manual (err e) = err e
with_manual manual panic = panic

-- What `parseExtraConfig` makes of the pairs.
unfoldable pub choose_config :
    Bool → String → List (String × String) → Result (Option ExtraBgpConfig)
choose_config manual service [] = ok none
choose_config manual service (r ∷ raw) =
    if service == srv_bgp
    then with_manual manual (from_map empty_bgp_config (r ∷ raw))
    else err (errorf ("service '" <> service <> "' does not accpet extra config"))

-- `parseExtraConfig`; `manual` and `texts` are the flags --manual-bgpd-config and --config.
unfoldable pub parse_extra_config : Bool → List String → String → Result (Option ExtraBgpConfig)
unfolding parse_pairs choose_config
parse_extra_config manual texts service = elim (parse_pairs [] texts) [
  | ok raw ↦ choose_config manual service raw
  | err e ↦ err e
  | panic ↦ panic
]

-- `connect` is `microcluster.App` and `LocalClient`.
module _ (env : Env) (json : Decoders) where
  abbrev pub connect : M (Unit {0})
  connect = do call env (issue "microcluster.App" []); call env (issue "LocalClient" []); ret tt

  -- `cmdDisable.Run`
  unfoldable pub disable_command : Bool → Bool → String → String → M (Unit {0})
  unfolding request_disable
  disable_command verbose allow_last_central node service = do
    connect
    answer ← request_disable env json service allow_last_central node
    say env ("Service " <> service <> " disabled\n")
    print_warnings env verbose answer.0
    if verbose then print_env env answer.1 else ret tt

  -- `cmdEnable.Run`
  unfoldable pub enable_command : Bool → Bool → List String → String → String → M (Unit {0})
  unfolding request_enable parse_extra_config
  enable_command verbose manual texts node service = do
    connect
    if service == srv_bgp
        then say env
            "Please note, BGP functionality is currently experimental and likely to change."
        else ret tt
    extra_config ← lift (parse_extra_config manual texts service)
    answer ← request_enable env json service extra_config node
    say env ("Service " <> service <> " enabled\n")
    print_warnings env verbose answer.0
    if verbose then print_env env answer.1 else ret tt
