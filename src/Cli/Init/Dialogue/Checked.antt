-- ===== src/Cli/Init/Dialogue/Checked.antt =====
-- `microovn init` validates the values of every request to the daemon.
use microovn.Prelude.{
  ℕ, zero, suc, String, Bool, true, false, ◌||◌, Option, none, some, List, [], ◌∷◌, ◌==◌, ◌≡◌, refl,
  arith,
}
use microovn.Effect.{
  Env, Result, Call, begin, commit, clock, statement, command, file, issue, ok, err, panic, World,
  M, ret, ◌>>◌, lift, call, ◌>>=◌,
}
use microovn.Effect.Keeps.{
  IsFrame, Keeps, Keeps-bind, Keeps-ret, Keeps-raise, Keeps-lift, Keeps-attempt, Keeps-either,
  Keeps-if, Keeps-on_error, Keeps-call,
}
use microovn.Cli.Init.{InitValues, validate_init}
use microovn.Cli.Printing.{say}
use microovn.Cli.Init.Dialogue.{
  Tools, cluster_request, ask_string, ask_bool, ask_encapsulation_ip, ask_custom_ca, ask_services,
  ask_bootstrap, ask_join, populate_interactively, given_values, read_preseed_config, print_token,
  print_tokens, apply_init_values, ask_servers, add_servers, with_defaults, start_with,
  init_command,
}

-- The call asks the daemon for a new cluster, or to join one.
abbrev pub asks_cluster : Call → Bool
asks_cluster (issue name args) = name == "NewCluster" || name == "JoinCluster"
asks_cluster begin = false
asks_cluster commit = false
asks_cluster clock = false
asks_cluster (statement name args) = false
asks_cluster (command name args) = false
asks_cluster (file name args) = false

module _ (env : Env) (tools : Tools) where
  -- The call is the request for values that are valid.
  abbrev pub IsChecked : Call → Type 0
  IsChecked c =
      (iv : InitValues) × (validate_init tools.is_network_address tools.is_not_empty iv ≡ ok tt)
      × (c ≡ cluster_request iv)

  -- Each call that asks for a cluster has been checked.
  unfoldable pub AllChecked : List Call → Type 0
  AllChecked [] = Unit
  AllChecked (c ∷ cs) = (asks_cluster c ≡ true → IsChecked c) × AllChecked cs

  abbrev StayChecked : World → World → Type 0
  StayChecked u v = AllChecked u.calls → AllChecked v.calls

  stay_checked : IsFrame StayChecked
  unfolding AllChecked
  stay_checked = record {
    stay = λ w h. h;
    join = λ u v w f g h. g (f h);
    undo = λ u v f h. f h;
    begins = λ w h. ((λ e. absurd (ground arith)), h);
    commits = λ w h. ((λ e. absurd (ground arith)), h);
  }

  -- A call that does not ask for a cluster.
  other_call : (c : Call) → asks_cluster c ≡ false → Keeps StayChecked (call env c)
  unfolding AllChecked
  other_call c h = Keeps-call stay_checked env c λ w a. ((λ e. absurd (ground arith)), a)

  stat_call : Keeps StayChecked (call env (issue "Stdin.Stat" []))
  stat_call = other_call _ refl

  yaml_call : Keeps StayChecked (call env (issue "yaml.Decode" []))
  yaml_call = other_call _ refl

  app_call : Keeps StayChecked (call env (issue "microcluster.App" []))
  app_call = other_call _ refl

  members_call : Keeps StayChecked (call env (issue "GetClusterMembers" []))
  members_call = other_call _ refl

  hostname_call : Keeps StayChecked (call env (issue "os.Hostname" []))
  hostname_call = other_call _ refl

  say-StayChecked : (text : String) → Keeps StayChecked (say env text)
  unfolding say
  say-StayChecked text =
      Keeps-bind stay_checked _ _ (Keeps-attempt stay_checked _ (other_call _ refl))
        λ r. Keeps-ret stay_checked tt

  ask_string-StayChecked :
      (question default : String) → Keeps StayChecked (ask_string env tools question default)
  unfolding ask_string
  ask_string-StayChecked question default = other_call _ refl

  ask_bool-StayChecked : (question : String) → Keeps StayChecked (ask_bool env tools question)
  unfolding ask_bool
  ask_bool-StayChecked question =
      Keeps-bind stay_checked _ _ (other_call _ refl) λ out. Keeps-ret stay_checked _

  ruleset asking = (
    Keeps-bind, Keeps-ret, Keeps-raise, Keeps-lift, Keeps-attempt, Keeps-on_error, Keeps-either,
    Keeps-if, stay_checked, hostname_call, say-StayChecked, ask_string-StayChecked,
    ask_bool-StayChecked,
  )

  ask_encapsulation_ip-StayChecked : Keeps StayChecked (ask_encapsulation_ip env tools)
  unfolding ask_encapsulation_ip
  ask_encapsulation_ip-StayChecked = search asking depth 12

  ask_custom_ca-StayChecked : Keeps StayChecked (ask_custom_ca env tools)
  unfolding ask_custom_ca
  ask_custom_ca-StayChecked = search asking depth 14

  ask_services-StayChecked : Keeps StayChecked (ask_services env tools)
  unfolding ask_services
  ask_services-StayChecked = search asking depth 12

  ask_bootstrap-StayChecked : (iv : InitValues) → Keeps StayChecked (ask_bootstrap env tools iv)
  unfolding ask_bootstrap
  ask_bootstrap-StayChecked iv =
      search (asking, ask_encapsulation_ip-StayChecked, ask_custom_ca-StayChecked) depth 14

  ask_join-StayChecked : (iv : InitValues) → Keeps StayChecked (ask_join env tools iv)
  unfolding ask_join
  ask_join-StayChecked iv = search (asking, ask_encapsulation_ip-StayChecked) depth 12

  populate-StayChecked : Keeps StayChecked (populate_interactively env tools)
  unfolding populate_interactively
  populate-StayChecked =
      search (asking, ask_bootstrap-StayChecked, ask_join-StayChecked, ask_services-StayChecked)
        depth 16

  read_preseed_config-StayChecked : Keeps StayChecked (read_preseed_config env tools)
  unfolding read_preseed_config
  read_preseed_config-StayChecked = search (asking, stat_call, yaml_call) depth 12

  print_token-StayChecked : (name : String) → Keeps StayChecked (print_token env tools name)
  unfolding print_token
  print_token-StayChecked name =
      Keeps-bind stay_checked _ _ (other_call _ refl) λ t. say-StayChecked _

  print_tokens-StayChecked :
      (names : List String) → Keeps StayChecked (print_tokens env tools names)
  unfolding print_tokens
  print_tokens-StayChecked [] = Keeps-ret stay_checked _
  print_tokens-StayChecked (name ∷ names) =
      Keeps-bind stay_checked _ _ (print_token-StayChecked name) λ r. print_tokens-StayChecked names

  ask_servers-StayChecked : (fuel : ℕ) → Keeps StayChecked (ask_servers env tools fuel)
  unfolding ask_servers
  ask_servers-StayChecked zero = Keeps-ret stay_checked _
  ask_servers-StayChecked (suc fuel) =
      Keeps-bind stay_checked _ _ (ask_string-StayChecked _ _) λ name.
        Keeps-if stay_checked (name == "") (ret true)
          (print_token env tools name >> ask_servers env tools fuel)
          (λ e. Keeps-ret stay_checked true)
          λ e.
            Keeps-bind stay_checked _ _ (print_token-StayChecked name)
              λ r. ask_servers-StayChecked fuel

  add_servers-StayChecked : (fuel : ℕ) → Keeps StayChecked (add_servers env tools fuel)
  unfolding add_servers
  add_servers-StayChecked fuel = search (asking, ask_servers-StayChecked) depth 10

  -- The request for values that are valid has been checked.
  request-StayChecked :
      (iv : InitValues)
      → validate_init tools.is_network_address tools.is_not_empty iv ≡ ok tt
      → Keeps StayChecked (call env (cluster_request iv))
  unfolding AllChecked
  request-StayChecked iv h =
      Keeps-call stay_checked env (cluster_request iv) λ w a. ((λ e. (iv, h, refl)), a)

  apply_init_values-StayChecked :
      (fresh : Bool) (iv : InitValues)
      → validate_init tools.is_network_address tools.is_not_empty iv ≡ ok tt
      → Keeps StayChecked (apply_init_values env tools fresh iv)
  unfolding apply_init_values
  apply_init_values-StayChecked fresh iv h =
      Keeps-bind stay_checked _ _ (search (asking, request-StayChecked iv h) depth 10)
        λ r. print_tokens-StayChecked iv.additional_servers

  -- After a check that may have failed.
  lift_bind :
      {A : Type 0} (r : Result (Unit {0})) (m : M A)
      → (r ≡ ok tt → Keeps StayChecked m)
      → Keeps StayChecked (lift r >>= λ u. m)
  unfolding ◌>>=◌ lift
  lift_bind (ok tt) m k = record { at = λ w. (k refl).at w }
  lift_bind (err e) m k = record { at = λ w h. h }
  lift_bind panic m k = record { at = λ w h. h }

  given_values-StayChecked :
      (preseed : Option InitValues) → Keeps StayChecked (given_values env tools preseed)
  unfolding given_values
  given_values-StayChecked none = populate-StayChecked
  given_values-StayChecked (some iv) = Keeps-ret stay_checked iv

  with_defaults-StayChecked :
      (flag : String) (iv : InitValues) → Keeps StayChecked (with_defaults env tools flag iv)
  unfolding with_defaults
  with_defaults-StayChecked flag iv = search asking depth 12

  start_with-StayChecked :
      (fuel : ℕ) (fresh preseed : Bool) (flag : String) (given : InitValues)
      → Keeps StayChecked (start_with env tools fuel fresh preseed flag given)
  unfolding start_with
  start_with-StayChecked fuel fresh preseed flag given =
      Keeps-bind stay_checked _ _ (with_defaults-StayChecked flag given) λ iv. lift_bind _ _ λ h.
        Keeps-bind stay_checked _ _ (apply_init_values-StayChecked fresh iv h)
          λ r. search (asking, add_servers-StayChecked) depth 8

  init_command-StayChecked :
      (fuel : ℕ) (flag : String) → Keeps StayChecked (init_command env tools fuel flag)
  unfolding init_command
  init_command-StayChecked fuel flag =
      search
        (
          asking, app_call, members_call, read_preseed_config-StayChecked, given_values-StayChecked,
          start_with-StayChecked,
        )
        depth 16

  -- Whatever `microovn init` is told and whatever fails, each request for a new cluster or to join one
  -- that it makes is for values that `validate` has accepted.
  pub init_command-AllChecked :
      (fuel : ℕ) (flag : String) (w : World)
      → AllChecked w.calls
      → AllChecked (init_command env tools fuel flag w).1.calls
  unfolding init_command
  init_command-AllChecked fuel flag w h = (init_command-StayChecked fuel flag).at w h
