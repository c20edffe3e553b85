-- ===== src/Hooks/Joined.antt =====
-- What a member that has joined a cluster runs (microovn/ovn/join.go).
use microovn.Prelude.{
  String, Bool, true, false, not, ◌&&◌, ◌||◌, none, some, List, [], ◌∷◌, ◌==◌, ltb, length,
  if◌then◌else◌, ◌≡◌, refl, is_none, ℕ, eq_iff, Option-cases, Bool-cases, inl, inr, arith,
}
use microovn.Database.{unique_members}
use microovn.Database.Services.{select_services}
use microovn.Database.Services.Ops.{get_services-ok}
use microovn.Database.Services.View.{enabled}
use microovn.Types.{srv_central}
use microovn.Config.Map.{option, get_config-SameDb, get_config-option}
use microovn.Environment.{is_external_central_configured}
use microovn.Node.Bgp.{BgpService}
use microovn.Node.Frame.{generate_environment-SameDb, certificate-SameDb}
use microovn.ApiBgp.{check_bgp_interface}
use microovn.Hooks.Requested.{RequestedServices, new_requested_services}
use microovn.Hooks.Options.{Options, read_services, read_join_options}
use microovn.Hooks.Bootstrap.{HookLibraries}
use microovn.Hooks.Refresh.{create_paths-SameDb}
use microovn.Hooks.Growth.{among}
use microovn.Hooks.Join.{count_central, join_options, join_cluster}
use microovn.Effect.{Env, World, Result, ok, err, panic, ret, lift, on_error, ◌>>=◌}
use microovn.Effect.Keeps.{Keeps, Keeps-on_error}
use microovn.Effect.Quiet.{SameDb, same_db, quiet}
use microovn.Effect.Ends.{Ends-bind}
use microovn.Effect.Outcome.{>>=-ok, inside, transaction-ok}
use microovn.Hooks.Started.{
  started, dump_ca-SameDb, count-SameDb, external-SameDb, check-SameDb, read_options-SameDb,
  start_joined-Grows,
}

-- The services after one more option.
unfoldable pub ask : RequestedServices → String → String → Result RequestedServices
ask r k v = if k == "ovn-services" && not (v == "auto") then new_requested_services v else ok r

-- The services that the options ask for: those of the last list of services that is not `auto`, and otherwise
-- the default. A list that cannot be read is an error.
unfoldable pub asked : RequestedServices → List (String × String) → Result RequestedServices
asked r [] = ok r
asked r ((k, v) ∷ rest) = elim (ask r k v) [ ok q ↦ asked q rest | err e ↦ err e | panic ↦ panic ]

-- The services of a member that asks for none: OVN central only where fewer than three members have it and no
-- central outside the cluster is configured.
abbrev pub default_services : World → RequestedServices
default_services w = record {
  central =
      is_none (option w "ovn.central-ips")
      && ltb
          (length
            (select_services (record { member = none; service = some srv_central } ∷ []) w.db))
          3;
  chassis = true;
  switch = true;
}

module _ (env : Env) where
  check_if-SameDb : (b : Bool) → Keeps SameDb (if b then check_bgp_interface env else ret tt)
  check_if-SameDb b = search (quiet, check-SameDb)

  pub read_services-ok :
      (o p : Options) (v : String) (w : World)
      → (read_services env o v w).0 ≡ ok p
      → (if v == "auto" then ok o.services else new_requested_services v) ≡ ok p.services
  unfolding read_services on_error lift ◌>>=◌ ret
  read_services-ok o p v w h = ground arith

  option_services :
      (o p : Options) (k v : String) (w : World)
      → ((if k == "ovn-encap-ip"
            then ret (record o { encap_ip = v })
            else if k == "ovn-services"
            then read_services env o v
            else ret o)
          w).0
        ≡ ok p
      → ask o.services k v ≡ ok p.services
  unfolding ret ask
  option_services o p k v w h = elim (Bool-cases (k == "ovn-services")) [
    | inl y ↦
        let x : k ≡ "ovn-services" = (eq_iff k "ovn-services").0 y in
        let z : k == "ovn-encap-ip" ≡ false = rw x refl in ground (arith, read_services-ok o p v w)
    | inr y ↦ ground arith
  ]

  read_options-asked :
      (o p : Options) (init : List (String × String)) (w : World)
      → (read_join_options env o init w).0 ≡ ok p
      → asked o.services init ≡ ok p.services
  unfolding read_join_options asked
  read_options-asked o p [] w h = unfold ret in ground arith
  read_options-asked o p ((k, v) ∷ rest) w h =
      let (q, x, y, z) = >>=-ok _ _ w h in
      rw (asked, option_services o q k v w x) (read_options-asked q p rest _ y)

  count-ok :
      (w : World) {n : ℕ}
      → (count_central env w).0 ≡ ok n
      → n
        ≡ length (select_services (record { member = none; service = some srv_central } ∷ []) w.db)
  unfolding count_central
  count-ok w h =
      let (l, p, q, r) = >>=-ok _ _ w h in
      let (x, d) = transaction-ok env _ w p in
      unfold ret in ground (arith, get_services-ok env _ (inside w) x)

  external-ok :
      (w : World) {b : Bool}
      → (is_external_central_configured env w).0 ≡ ok b
      → not b ≡ is_none (option w "ovn.central-ips")
  unfolding is_external_central_configured
  external-ok w h =
      let (l, p, q, r) = >>=-ok _ _ w h in
      let (x, d) = get_config-option env "ovn.central-ips" w p in
      unfold ret in elim (Option-cases l) [ inl a ↦ ground arith | inr (c, a) ↦ ground arith ]

  defaults :
      (w v x : World) {n : ℕ} {b : Bool}
      → v.db ≡ w.db
      → x.db ≡ w.db
      → (count_central env v).0 ≡ ok n
      → (is_external_central_configured env x).0 ≡ ok b
      → (join_options env b n).services ≡ default_services w
  defaults w v x {n} {b} d e h k =
      let counted = count-ok v h in let named = external-ok x k in rw (named, counted, d, e) refl

module _ (env : Env) (bgp : BgpService) (libs : HookLibraries) (w : World)
    (unique : unique_members w.db.members ≡ true) where
  -- If members have unique names and ids, then after Join that succeeds the options ask for services that could
  -- be read, and except for BGP, exactly these have become enabled on this node, next to what was enabled
  -- before. Of a member that asks for none, OVN central is among them only where fewer than three members have
  -- it and no central outside the cluster is configured.
  pub join_cluster-enabled :
      (init : List (String × String)) (n t : String)
      → "bgp" == t ≡ false
      → (join_cluster env bgp libs init w).0 ≡ ok tt
      → (r : RequestedServices) × (asked (default_services w) init ≡ ok r)
        × (enabled (join_cluster env bgp libs init w).1.db n t
            ≡ (enabled w.db n t || (env.name == n && among (started r) t)))
  unfolding join_cluster
  join_cluster-enabled init n t not_bgp h =
      let G = λ (v : World).
        (r : RequestedServices) × (asked (default_services w) init ≡ ok r)
        × (enabled v.db n t ≡ (enabled w.db n t || (env.name == n && among (started r) t))) in
      Ends-bind w.db G _ _ (create_paths-SameDb env)
        (λ _ _ _ _. Ends-bind w.db G _ _ (count-SameDb env) λ count w1 d1 h1.
          Ends-bind w.db G _ _ (external-SameDb env) λ external w2 d2 h2.
            Ends-bind w.db G _ _ (read_options-SameDb env _ init) λ o w3 _ h3.
              Ends-bind w.db G _ _ (get_config-SameDb env _) λ c _ _ _.
                Ends-bind w.db G _ _ (check_if-SameDb env _) λ _ _ _ _.
                  Ends-bind w.db G _ _
                    (Keeps-on_error same_db _ _ (generate_environment-SameDb env))
                    λ _ _ _ _.
                      Ends-bind w.db G _ _ (Keeps-on_error same_db _ _ (certificate-SameDb env _ _))
                        λ _ _ _ _. Ends-bind w.db G _ _ (dump_ca-SameDb env) λ _ _ _ _ v e d k.
                          let (ms, grown) =
                            (start_joined-Grows env bgp n t not_bgp libs o _).at v (rw d unique)
                              k in
                          (
                            o.services,
                            rw (← defaults env w w1 w2 d1 d2 h1 h2)
                                (read_options-asked env _ o init w3 h3),
                            rw (← d) grown,
                          ))
        w tt refl h
