-- ===== src/Cli/ConfigCommands/Told.antt =====
-- What a success of `microovn config set` says of the daemon's options.
use microovn.Prelude.{
  String, Bool, true, false, some, List, [], ◌∷◌, ◌==◌, ◌≡◌, refl, sym, inl, inr, arith, Bool-cases,
  if◌then◌else◌,
}
use microovn.Effect.{
  Env, Call, World, Result-cases, Reply-cases, issue, out, ok, call, on_error, ret, raise, lift,
  attempt, ◌>>=◌,
}
use microovn.Config.{set_config}
use microovn.Config.Map.{option}
use microovn.ApiConfig.{Answer, parse_config_request, ovn_central_ips_updated, handle_set}
use microovn.ApiConfig.Answers.{starts_with_text, parse_failure, handle_set-success}
use microovn.Client.{Decoders, request_set}
use microovn.Cli.ConfigCommands.{config_set_command}

module _ (env : Env) (parse_ip : String → Bool) (key value : String) (w : World) where
  -- The error of a failure is not empty.
  handle_set-failure :
      {a : Answer}
      → (handle_set env parse_ip key value w).0 ≡ ok a
      → a.success ≡ false
      → (a.error == "") ≡ false
  unfolding handle_set ◌>>=◌ lift attempt ret
  handle_set-failure h s = elim (Result-cases (parse_config_request parse_ip key (some value))) [
    | inr (inl (e, p)) ↦ (let t = parse_failure parse_ip key value e p in ground arith)
    | inr (inr p) ↦ absurd (ground arith)
    | inl (tt, p) ↦ elim (Result-cases (set_config env key value w).0) [
      | inr (inl (e, q)) ↦
          (let t = starts_with_text "Error occurred while setting config: " e.message refl in
            ground arith)
      | inr (inr q) ↦ absurd (ground arith)
      | inl (tt, q) ↦
          let v = (set_config env key value w).1 in
          elim (Result-cases (ovn_central_ips_updated env parse_ip key v).0) [
            | inl (tt, r) ↦ absurd (ground arith)
            | inr (inl (e, r)) ↦
                (let t =
                    starts_with_text "Error occurred while handling config change: " e.message
                      refl in
                  ground arith)
            | inr (inr r) ↦ absurd (ground arith)
          ]
    ]
  ]

module _ (env : Env) (json : Decoders) (key value : String) (w : World) where
  -- A command that succeeds has got an answer without an error.
  config_set_command-answer :
      (config_set_command env json key value w).0 ≡ ok tt
      → (cs : List Call) × (body : String) × (env.respond cs
            (issue "POST" ("config" ∷ key ∷ value ∷ []))
          ≡ out body)
        × (((json.answer body).error == "") ≡ true)
  unfolding config_set_command request_set ◌>>=◌ call on_error ret raise
  config_set_command-answer h =
      let start = issue "microcluster.App" [] in
      let local = issue "LocalClient" [] in
      let cs = local ∷ start ∷ w.calls in
      elim (Reply-cases (env.respond w.calls start)) [
        | inr (m, p) ↦ absurd (ground arith)
        | inl (x, p) ↦ elim (Reply-cases (env.respond (start ∷ w.calls) local)) [
          | inr (m, q) ↦ absurd (ground arith)
          | inl (y, q) ↦
              elim (Reply-cases (env.respond cs (issue "POST" ("config" ∷ key ∷ value ∷ [])))) [
                | inr (m, r) ↦ absurd (ground arith)
                | inl (body, r) ↦ elim (Bool-cases ((json.answer body).error == "")) [
                  | inl t ↦ (cs, body, r, t)
                  | inr t ↦ absurd (ground arith)
                ]
              ]
        ]
      ]

-- If microovn config set succeeds, and the error in the reply to its request is that of the answer of the
-- endpoint, then the endpoint has accepted the request, has bound the key to the value and left every other
-- key alone.
pub config_set_command-option :
    (cli : Env) (json : Decoders) (u : World) (env : Env) (parse_ip : String → Bool)
    (key value : String) (w : World) (a : Answer) (j : String)
    → (handle_set env parse_ip key value w).0 ≡ ok a
    → ((cs : List Call) (body : String)
        → cli.respond cs (issue "POST" ("config" ∷ key ∷ value ∷ [])) ≡ out body
        → (json.answer body).error ≡ a.error)
    → (config_set_command cli json key value u).0 ≡ ok tt
    → (parse_config_request parse_ip key (some value) ≡ ok tt)
      × (option (handle_set env parse_ip key value w).1 j
          ≡ (if key == j then some value else option w j))
config_set_command-option cli json u env parse_ip key value w a j h carried done =
    let (cs, body, r, t) = config_set_command-answer cli json key value u done in
    let e : (a.error == "") ≡ true = rw (sym (carried cs body r)) t in
    elim (Bool-cases a.success) [
      | inl s ↦ handle_set-success env parse_ip key value w j h s
      | inr s ↦ let f = handle_set-failure env parse_ip key value w h s in absurd (ground arith)
    ]
