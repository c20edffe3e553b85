-- ===== src/Hooks/Bootstrapped.antt =====
-- What the first member of a cluster runs (microovn/ovn/bootstrap.go).
use microovn.Prelude.{
  String, Bool, true, false, none, List, [], ◌∷◌, ◌==◌, ◌&&◌, ◌||◌, ◌≡◌, refl, ap, ◌∙◌, arith, inl,
  inr, Bool-cases, eq_iff,
}
use microovn.Database.{unique_members}
use microovn.Database.Config.{create_config_item, update_config_item, first_id, get_config_item_id}
use microovn.Database.Config.Ops.{config_item_exists-db}
use microovn.Database.Services.View.{enabled}
use microovn.Effect.{Env, World, Result-cases, Call, ok, M, ret, call, on_error, ◌>>=◌}
use microovn.Effect.Keeps.{
  IsFrame, Keeps, Keeps-bind, Keeps-call, Keeps-ret, Keeps-raise, Keeps-lift, Keeps-gets,
  Keeps-attempt, Keeps-on_error, Keeps-panics, Keeps-either, Keeps-if, Keeps-transaction,
}
use microovn.Effect.Quiet.{SameDb, same_db, quiet}
use microovn.Effect.Ends.{Ends-bind}
use microovn.Effect.Outcome.{>>=-ok}
use microovn.Certificates.{upsert, upsert_ca, store_ca, generate_new_ca_certificate}
use microovn.Certificates.Custom.{check_chain-SameDb, set_new_ca_certificate}
use microovn.Node.Bgp.{BgpService}
use microovn.Node.Frame.{
  get_config_item-SameDb, issue_certificate-SameDb, certificate-SameDb, generate_environment-SameDb,
  listen-SameDb,
}
use microovn.Types.{srv_switch}
use microovn.Hooks.Requested.{RequestedServices}
use microovn.Hooks.Options.{Options, read_option, read_options}
use microovn.Hooks.Bootstrap.{HookLibraries, choose_ca, bootstrap}
use microovn.Hooks.Growth.{
  among, Grows-quiet, Grows-steady, Grows-on_error, Grows-bind, Grows-if, Grows-enable,
  SameServices,
}
use microovn.Hooks.Refresh.{create_paths-SameDb}
use microovn.Hooks.Started.{
  started, dump_ca-SameDb, dpu-SameDb, central-Grows, chassis-Grows, from_ovs-Grows,
  read_services-SameDb,
}
use microovn.Hooks.Joined.{ask, asked, read_services-ok}

same_services : IsFrame SameServices
same_services = record {
  stay = λ w. (refl, refl);
  join = λ u v w p q. (q.0 ∙ p.0, q.1 ∙ p.1);
  undo = λ u v p. (refl, refl);
  begins = λ w. (refl, refl);
  commits = λ w. (refl, refl);
}

quiet-SameServices : {A : Type 0} (m : M A) → Keeps SameDb m → Keeps SameServices m
quiet-SameServices m k = record {
  at = λ w. (ap (λ db. db.members) (k.at w), ap (λ db. db.services) (k.at w));
}

call-SameServices : (env : Env) (c : Call) → Keeps SameServices (call env c)
call-SameServices env c = Keeps-call same_services env c (λ w. (refl, refl))

ruleset steady = (
  Keeps-bind, Keeps-ret, Keeps-raise, Keeps-lift, Keeps-gets, Keeps-attempt, Keeps-on_error,
  Keeps-panics, Keeps-either, Keeps-if, Keeps-transaction, same_services, quiet-SameServices,
)

module _ (env : Env) where
  pub create_item-SameServices : (k v : String) → Keeps SameServices (create_config_item env k v)
  unfolding create_config_item ◌>>=◌ call on_error
  create_item-SameServices k v = record {
    at = λ w. let d = config_item_exists-db env k w in (ground arith, ground arith);
  }

  pub update_item-SameServices :
      (k j v : String) → Keeps SameServices (update_config_item env k j v)
  unfolding update_config_item get_config_item_id ◌>>=◌ call on_error
  update_item-SameServices k j v = record {
    at = λ w. elim (Result-cases (first_id k w.db.config)) [
      | inl (id, p) ↦ (ground arith, ground arith)
      | inr (inl (e, p)) ↦ (ground arith, ground arith)
      | inr (inr p) ↦ (ground arith, ground arith)
    ];
  }

  upsert-SameServices : (label k v : String) → Keeps SameServices (upsert env label k v)
  unfolding upsert
  upsert-SameServices label k v =
      search (steady, get_config_item-SameDb, create_item-SameServices, update_item-SameServices)
        depth 12

  store_ca-SameServices :
      (cert key : String) (b : Bool) → Keeps SameServices (store_ca env cert key b)
  unfolding store_ca upsert_ca
  store_ca-SameServices cert key b =
      search (steady, upsert-SameServices, call-SameServices) depth 12

  choose_ca-SameServices :
      (bgp : BgpService) (libs : HookLibraries) (o : Options)
      → Keeps SameServices (choose_ca env bgp libs o)
  unfolding choose_ca set_new_ca_certificate generate_new_ca_certificate
  choose_ca-SameServices bgp libs o =
      search
        (
          steady, check_chain-SameDb, issue_certificate-SameDb, store_ca-SameServices,
          call-SameServices,
        )
        depth 12

  read_option-SameDb : (o : Options) (k v : String) → Keeps SameDb (read_option env o k v)
  unfolding read_option
  read_option-SameDb o k v = search (quiet, read_services-SameDb) depth 14

  pub read_options-SameDb :
      (o : Options) (init : List (String × String)) → Keeps SameDb (read_options env o init)
  unfolding read_options
  read_options-SameDb o [] = search quiet
  read_options-SameDb o ((k, v) ∷ rest) =
      Keeps-bind same_db _ _ (read_option-SameDb o k v) λ p. read_options-SameDb p rest

  -- The loop of `Bootstrap` finds the services that the options ask for.
  read_option-ask :
      (o p : Options) (k v : String) (w : World)
      → (read_option env o k v w).0 ≡ ok p
      → ask o.services k v ≡ ok p.services
  unfolding read_option ask ret call on_error ◌>>=◌
  read_option-ask o p k v w h = elim (Bool-cases (k == "ovn-services")) [
    | inl y ↦
        let x : k ≡ "ovn-services" = (eq_iff k "ovn-services").0 y in
        let z : k == "ovn-encap-ip" ≡ false = rw x refl in
        let z2 : k == "ovn-ca-cert" ≡ false = rw x refl in
        let z3 : k == "ovn-ca-key" ≡ false = rw x refl in
        ground (arith, read_services-ok env o p v w)
    | inr y ↦ ground arith
  ]

  read_options-asked :
      (o p : Options) (init : List (String × String)) (w : World)
      → (read_options env o init w).0 ≡ ok p
      → asked o.services init ≡ ok p.services
  unfolding read_options asked
  read_options-asked o p [] w h = unfold ret in ground arith
  read_options-asked o p ((k, v) ∷ rest) w h =
      let (q, x, y, z) = >>=-ok _ _ w h in
      rw (asked, read_option-ask o q k v w x) (read_options-asked q p rest _ y)

abbrev pub all_services : RequestedServices
all_services = record { central = true; chassis = true; switch = true }

module _ (env : Env) (bgp : BgpService) (libs : HookLibraries) (w : World)
    (unique : unique_members w.db.members ≡ true) where
  -- If members have unique names and ids, then after Bootstrap that succeeds the options ask for services that could
  -- be read, and except for BGP, exactly these have become enabled on this node, next to what was enabled
  -- before. A member that asks for none gets all three.
  pub bootstrap-enabled :
      (init : List (String × String)) (n t : String)
      → "bgp" == t ≡ false
      → (bootstrap env bgp libs init w).0 ≡ ok tt
      → (r : RequestedServices) × (asked all_services init ≡ ok r)
        × (enabled (bootstrap env bgp libs init w).1.db n t
            ≡ (enabled w.db n t || (env.name == n && among (started r) t)))
  unfolding bootstrap
  bootstrap-enabled init n t not_bgp h =
      let G = λ (v : World).
        (r : RequestedServices) × (asked all_services init ≡ ok r)
        × (enabled v.db n t ≡ (enabled w.db n t || (env.name == n && among (started r) t))) in
      Ends-bind w.db G _ _ (create_paths-SameDb env)
        (λ _ _ _ _. Ends-bind w.db G _ _ (read_options-SameDb env _ init) λ o x _ read v e d k.
          let rest =
            Grows-bind env n t _ _ (Grows-steady env n t _ (choose_ca-SameServices env bgp libs o))
              λ _. Grows-bind env n t _ _ (Grows-quiet env n t _ (dump_ca-SameDb env)) λ _.
                Grows-bind env n t _ _
                  (Grows-quiet env n t _
                    (Keeps-on_error same_db _ _ (generate_environment-SameDb env)))
                  λ _.
                    Grows-bind env n t _ _
                      (Grows-quiet env n t _
                        (Keeps-on_error same_db _ _ (certificate-SameDb env _ _)))
                      λ _.
                        Grows-bind env n t _ _
                          (Grows-if env n t o.services.switch _
                            (Grows-enable env n t bgp srv_switch none))
                          λ _.
                            Grows-bind env n t _ _
                              (Grows-if env n t o.services.central _ (
                                Grows-bind env n t _ _ (central-Grows env bgp n t not_bgp)
                                  λ _. Grows-quiet env n t _ (listen-SameDb env)))
                              λ _.
                                Grows-bind env n t _ _
                                  (Grows-if env n t o.services.chassis _
                                    (chassis-Grows env bgp n t not_bgp o.encap_ip))
                                  λ _.
                                    Grows-bind env n t _ _
                                      (Grows-quiet env n t _ (dpu-SameDb env libs))
                                      λ _.
                                        Grows-on_error env n t _ _
                                          (from_ovs-Grows env bgp n t not_bgp) in
          let (ms, grown) = rest.at v (rw d unique) k in
          (o.services, read_options-asked env _ o init x read, rw (← d) grown))
        w tt refl h
