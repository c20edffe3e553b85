-- ===== src/Bgp/Service.antt =====
-- microovn/bgp/service.go: the BGP service, set up and taken down.
use microovn.Prelude.{
  ℕ, String, true, Option, none, some, List, [], ◌∷◌, ◌==◌, ◌&&◌, eqb, if◌then◌else◌,
}
use microovn.Text.{◌<>◌}
use microovn.Types.{ExtraBgpConfig, validate, parse_external_connection, parse_bridge}
use microovn.Netplan.{Yaml, run_command}
use microovn.Paths.{bird_config_file, wrappers, join_path}
use microovn.Snap.{start, stop}
use microovn.Effect.{
  Env, Error, M, ret, raise, panics, attempt, either, lift, call, file, on_error, errorf, wrapf,
  ◌>>=◌, ◌>>◌,
}
use microovn.Effect.Errors.{also, report, joined_errors}
use microovn.Bgp.Asn.{generate_asn}
use microovn.Bgp.Vrf.{find_available_vrf_table_id}
use microovn.Bgp.Names.{get_vrf_name, get_lrp_name, generate_bgp_router_id}
use microovn.Bgp.Networks.{
  create_external_bridges, create_bridge_networks, create_external_networks, create_vrf,
  redirect_bgp,
}
use microovn.Bgp.BirdConfig.{bird_config_text}
use microovn.Bgp.Teardown.{teardown_all}

abbrev pub bird_service : String
bird_service = "bird"

-- What the service uses of other packages: crypto/md5 and yaml.v3.
pub record Libraries : Type 0 where
  pub md5 : String → List ℕ
  pub yaml : Yaml

module _ (env : Env) (libs : Libraries) where
  -- `configureBirdBgp`; without a bridge `bridges[0]` is a panic, after the file is opened. The output
  -- of a birdc that fails, which the code puts behind the error, is left out.
  unfoldable pub write_bird_config : List String → String → String → M (Unit {0})
  write_bird_config [] table_id asn = panics
  write_bird_config (bridge ∷ bridges) table_id asn = do
    let text = bird_config_text (record {
      vrf_table_id = table_id;
      vrf_name = get_vrf_name table_id;
      router_id = generate_bgp_router_id libs.md5 (get_lrp_name env bridge);
      bridges = bridge ∷ bridges;
      asn = asn;
    })
    on_error (wrapf "failed to render Bird configuration template: ")
        (call env (file "write" (bird_config_file env ∷ text ∷ [])))
    on_error
        (λ e. record e { message = "failed to apply Bird configuration: " <> e.message <> ": " })
        (run_command env (join_path (wrappers env ∷ "birdc" ∷ [])) ("configure" ∷ []))
    ret tt

  unfoldable pub configure_bird_bgp : List String → String → String → M (Unit {0})
  configure_bird_bgp bridges table_id asn = do
    on_error (wrapf "failed to open Bird configuration file for writing: ")
        (call env (file "create" (bird_config_file env ∷ [])))
    write_bird_config bridges table_id asn

  -- `DisableService`
  unfoldable pub disable_bgp : M (Unit {0})
  disable_bgp = do
    errs ← also [] (λ e. errorf "failed to stop BGP service") (stop env bird_service true)
    all ← also errs (λ e. e) (teardown_all env libs.yaml)
    report all

  -- `return errors.Join(err, DisableService(ctx, s))`
  unfoldable pub give_up : {A : Type 0} → Error → M A
  give_up e = do
    r ← attempt disable_bgp
    either r (λ u. raise (joined_errors (e ∷ []))) (λ f. raise (joined_errors (e ∷ f ∷ [])))

  -- A step whose error takes everything down again.
  unfoldable pub or_give_up : {A : Type 0} → (Error → Error) → M A → M A
  unfolding give_up
  or_give_up f m = do r ← attempt m; either r ret (λ e. give_up (f e))

  -- The VRF table, chosen if the configuration names none.
  unfoldable pub select_vrf : ExtraBgpConfig → M String
  select_vrf config =
      if config.vrf == ""
      then or_give_up (λ e. errorf ("failed to auto-select VRF table ID: " <> e.message))
          (find_available_vrf_table_id env)
      else ret config.vrf

  -- The bridges, made for the interfaces if the configuration names none.
  unfoldable pub make_bridges : ExtraBgpConfig → List String → M (List String)
  make_bridges config [] =
      or_give_up (λ e. e) (create_external_bridges env (parse_external_connection config))
  make_bridges config (bridge ∷ bridges) =
      or_give_up (λ e. e) (create_bridge_networks env (bridge ∷ bridges))

  abbrev pub select_bridges : ExtraBgpConfig → M (List String)
  select_bridges config = make_bridges config (parse_bridge config)

  abbrev pub asn_range : ExtraBgpConfig → ℕ × ℕ
  asn_range config =
      if eqb config.asn_min 0 && eqb config.asn_max 0
      then (4210000000, 4294967294)
      else (config.asn_min, config.asn_max)

  -- The ASN, chosen if the configuration names none.
  unfoldable pub select_asn : ExtraBgpConfig → M String
  select_asn config =
      if config.asn == ""
      then or_give_up (λ e. errorf ("failed to auto-select ASN: " <> e.message))
          (generate_asn env (asn_range config).0 (asn_range config).1)
      else ret config.asn

  -- `EnableService` with a configuration, once the service is started.
  unfoldable pub set_up : ExtraBgpConfig → M (Unit {0})
  set_up config = do
    table_id ← select_vrf config
    bridges ← select_bridges config
    or_give_up (λ e. e) (create_external_networks env libs.md5 bridges)
    or_give_up (λ e. e) (create_vrf env bridges table_id)
    or_give_up (λ e. e) (redirect_bgp env libs.md5 libs.yaml bridges table_id)
    if config.manual_bgpd_config then ret tt else do
      asn ← select_asn config
      or_give_up (λ e. e) (configure_bird_bgp bridges table_id asn)

  unfoldable pub start_bird : M (Unit {0})
  start_bird = or_give_up (λ e. errorf "failed to start BGP service") (start env bird_service true)

  -- `EnableService`
  unfoldable pub enable_bgp : Option ExtraBgpConfig → M (Unit {0})
  enable_bgp none = start_bird
  enable_bgp (some config) = do
    on_error
        (λ e. errorf ("failed to validate BGP config. Services won't be started: " <> e.message))
        (lift (validate config))
    start_bird
    set_up config
