-- ===== src/Hooks/Join.antt =====
-- microovn/ovn/join.go: a member that joins a cluster. The mutex of the hooks is left out.
use microovn.Prelude.{
  ℕ, String, Bool, true, not, ◌&&◌, none, some, List, [], ◌∷◌, ◌==◌, ltb, length, if◌then◌else◌,
}
use microovn.Text.{◌<>◌}
use microovn.Types.{srv_switch, srv_central}
use microovn.Config.{get_config}
use microovn.Database.Services.{get_services}
use microovn.Environment.{create_paths, generate_environment, is_external_central_configured}
use microovn.Certificates.{dump_ca, generate_new_service_certificate, server_type}
use microovn.Dpu.{dpu_setup}
use microovn.Node.Bgp.{BgpService}
use microovn.ApiBgp.{
  key_cluster, value_or, check_bgp_interface, enable_bgp_from_ovs, enable_bgp_from_cluster_config,
}
use microovn.Hooks.Options.{Options, read_join_options, enable_if, start_central, start_chassis}
use microovn.Hooks.Bootstrap.{HookLibraries}
use microovn.Effect.{Env, M, ret, transaction, on_error, errorf, wrapf, ◌>>=◌, ◌>>◌}

module _ (env : Env) where
  -- The number of members with OVN central.
  unfoldable pub count_central : M ℕ
  count_central = do
    services ←
        transaction env
          (get_services env (record { member = none; service = some srv_central } ∷ []))
    ret (length services)

  -- Central is started by default only where fewer than three members have it, and none outside is named.
  abbrev pub join_options : Bool → ℕ → Options
  join_options external_central srv_central_count = record {
    encap_ip = env.address;
    cert = "";
    key = "";
    services = record {
      central = not external_central && ltb srv_central_count 3;
      chassis = true;
      switch = true;
    };
  }

module _ (env : Env) (bgp : BgpService) (libs : HookLibraries) where
  -- The end of `Join`: what the options ask for is started, and BGP if the cluster has it.
  unfoldable pub start_joined : Options → String → M (Unit {0})
  start_joined o bgp_cluster = do
    enable_if env bgp o.services.switch srv_switch
    if o.services.central then start_central env bgp else ret tt
    if o.services.chassis then start_chassis env bgp o.encap_ip else ret tt
    dpu_setup env libs.devlink
    on_error (wrapf "failed to enable BGP from OVS external IDs: ") (enable_bgp_from_ovs env bgp)
    if bgp_cluster == "true"
        then on_error (wrapf "failed to enable BGP on joining node: ")
            (enable_bgp_from_cluster_config env bgp)
        else ret tt

  -- `Join`
  unfoldable pub join_cluster : List (String × String) → M (Unit {0})
  join_cluster init_config = do
    create_paths env
    count ← count_central env
    external_central ← is_external_central_configured env
    o ← read_join_options env (join_options env external_central count) init_config
    bgp_cluster ← get_config env key_cluster
    if value_or "" bgp_cluster == "true" then check_bgp_interface env else ret tt
    on_error (wrapf "failed to generate the daemon configuration: ") (generate_environment env)
    on_error (λ e. errorf ("failed to generate TLS certificate for client: " <> e.message))
        (generate_new_service_certificate env "client" server_type)
    dump_ca env
    start_joined o (value_or "" bgp_cluster)
