-- ===== src/Bgp/Deletions.antt =====
-- Which logical switches the commands of microovn/bgp/redirect.go and microovn/ovn/cmd/cmd.go delete.
use microovn.Prelude.{
  ℕ, zero, suc, String, Bool, false, Option, none, some, ◌&&◌, List, [], ◌∷◌, ◌==◌, any, ◌≡◌, refl,
  ◌∙◌, arith, Bool-cases, inl, inr,
}
use microovn.Config.{get_config}
use microovn.Database.Config.{
  get_config_item, config_item_exists, get_config_item_id, get_config_items,
}
use microovn.Database.Services.{get_services}
use microovn.Commands.{
  nb_ctl_cluster, wait_for_cluster_db_state, connect_any, retry, with_timeout, has_timeout,
}
use microovn.Environment.{central_ips, remote_addresses_from_config, or_default, central_addresses}
use microovn.Effect.{Env, Error, World, Call, statement, command, call}
use microovn.Effect.Keeps.{
  IsFrame, Keeps, Keeps-bind, Keeps-call, Keeps-ret, Keeps-raise, Keeps-lift, Keeps-gets,
  Keeps-attempt, Keeps-on_error, Keeps-panics, Keeps-either, Keeps-if, Keeps-transaction,
}

-- A command whose arguments, behind the option for the time if it has one, are `ls-del` and the switch.
abbrev pub is_deletion : String → Call → Bool
is_deletion switch (command cmd (op ∷ name ∷ [])) = op == "ls-del" && name == switch
is_deletion switch (command cmd (flag ∷ limit ∷ op ∷ name ∷ args)) =
    op == "ls-del" && name == switch
is_deletion switch c = false

-- Whether a command to delete the switch was run.
abbrev pub deleted : String → World → Bool
deleted switch w = any (is_deletion switch) w.calls

module _ (switch : String) where
  -- No other command to delete the switch is run.
  abbrev pub Spared : World → World → Type 0
  Spared u v = deleted switch v ≡ deleted switch u

  pub spared : IsFrame Spared
  spared = record {
    stay = λ w. refl;
    join = λ u v w p q. q ∙ p;
    undo = λ u v p. p;
    begins = λ w. refl;
    commits = λ w. refl;
  }

  module _ (env : Env) where
    statement-Spared :
        (name : String) (args : List String) → Keeps Spared (call env (statement name args))
    statement-Spared name args = Keeps-call spared env _ λ w. refl

    ruleset sparing = (
      Keeps-bind, Keeps-ret, Keeps-raise, Keeps-lift, Keeps-gets, Keeps-attempt, Keeps-on_error,
      Keeps-panics, Keeps-either, Keeps-if, Keeps-transaction, spared, statement-Spared,
    )

    get_services-Spared : (fs : _) → Keeps Spared (get_services env fs)
    unfolding get_services
    get_services-Spared fs = search sparing depth 12

    get_config-Spared : (k : String) → Keeps Spared (get_config env k)
    unfolding get_config get_config_item config_item_exists get_config_item_id get_config_items
    get_config-Spared k = search sparing depth 16

    or_default-Spared : (o : Option (List String)) → Keeps Spared (or_default env o)
    unfolding or_default central_addresses
    or_default-Spared none = search (sparing, get_services-Spared) depth 12
    or_default-Spared (some addrs) = search sparing

    central_ips-Spared : Keeps Spared (central_ips env)
    unfolding central_ips remote_addresses_from_config
    central_ips-Spared = search (sparing, get_config-Spared, or_default-Spared) depth 16

    connect_any-Spared :
        (db state : String) (port : ℕ) (ips : List String)
        → Keeps Spared (connect_any env db state port ips)
    unfolding connect_any
    connect_any-Spared db state port [] = Keeps-ret spared _
    connect_any-Spared db state port (ip ∷ ips) =
        Keeps-bind spared _ _ (Keeps-attempt spared _ (Keeps-call spared env _ (λ w. refl)))
          λ r. search (sparing, connect_any-Spared db state port ips)

    retry-Spared :
        (n : ℕ) (cmd : String) (args : List String) (e : Error)
        → is_deletion switch (command cmd args) ≡ false
        → Keeps Spared (retry env n cmd args e)
    unfolding retry
    retry-Spared zero cmd args e h = Keeps-raise spared e
    retry-Spared (suc n) cmd args e h =
        Keeps-bind spared _ _ (Keeps-attempt spared _ (Keeps-call spared env _ (λ w. ground arith)))
          λ r. Keeps-either spared r _ _ (λ a. Keeps-ret spared a) λ f. retry-Spared n cmd args f h

    with_timeout-deletion :
        (cmd name : String)
        → (name == switch) ≡ false
        → is_deletion switch (command cmd (with_timeout ("ls-del" ∷ name ∷ []))) ≡ false
    unfolding with_timeout
    with_timeout-deletion cmd name h = elim (Bool-cases (has_timeout ("ls-del" ∷ name ∷ []))) [
      | inl t ↦ rw (t, h) refl
      | inr f ↦ rw (f, h) refl
    ]

    -- The command that deletes another switch.
    pub nb_ctl_cluster-Spared :
        (name : String)
        → (name == switch) ≡ false
        → Keeps Spared (nb_ctl_cluster env ("ls-del" ∷ name ∷ []))
    unfolding nb_ctl_cluster wait_for_cluster_db_state
    nb_ctl_cluster-Spared name h =
        search
          (sparing, central_ips-Spared, connect_any-Spared, retry-Spared, with_timeout-deletion, h)
          depth 14
