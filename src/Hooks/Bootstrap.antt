-- ===== src/Hooks/Bootstrap.antt =====
-- microovn/ovn/bootstrap.go: the first member of a cluster. The mutex of the hooks is left out.
use microovn.Prelude.{String, Bool, true, not, ◌&&◌, List, ◌==◌, if◌then◌else◌}
use microovn.Text.{◌<>◌}
use microovn.Types.{srv_switch}
use microovn.Environment.{create_paths, generate_environment}
use microovn.Certificates.{
  dump_ca, generate_new_ca_certificate, generate_new_service_certificate, server_type,
}
use microovn.Certificates.Custom.{X509, set_new_ca_certificate}
use microovn.Cluster.{update_ovn_listen_config}
use microovn.Dpu.{DevlinkPort, dpu_setup}
use microovn.Netplan.{Entries}
use microovn.Node.Bgp.{BgpService}
use microovn.ApiBgp.{enable_bgp_from_ovs}
use microovn.Hooks.Options.{Options, read_options, enable_if, start_central, start_chassis}
use microovn.Effect.{Env, Result, M, ret, on_error, errorf, wrapf, ◌>>=◌, ◌>>◌}

-- What the hooks use of crypto/x509 and of encoding/json.
pub record HookLibraries : Type 0 where
  pub x509 : X509
  pub devlink : String → Result (Entries DevlinkPort)

abbrev pub bootstrap_options : Env → Options
bootstrap_options env = record {
  encap_ip = env.address;
  cert = "";
  key = "";
  services = record { central = true; chassis = true; switch = true };
}

module _ (env : Env) (bgp : BgpService) (libs : HookLibraries) where
  -- The CA of the user if both of its files have been read, and a new one otherwise.
  unfoldable pub choose_ca : Options → M Bool
  choose_ca o =
      if not (o.cert == "") && not (o.key == "")
      then set_new_ca_certificate env libs.x509 o.cert o.key
      else generate_new_ca_certificate env

  -- `Bootstrap`
  unfoldable pub bootstrap : List (String × String) → M (Unit {0})
  bootstrap init_config = do
    create_paths env
    o ← read_options env (bootstrap_options env) init_config
    choose_ca o
    dump_ca env
    on_error (wrapf "failed to generate the daemon configuration: ") (generate_environment env)
    on_error (λ e. errorf ("failed to generate TLS certificate for client: " <> e.message))
        (generate_new_service_certificate env "client" server_type)
    enable_if env bgp o.services.switch srv_switch
    if o.services.central then start_central env bgp >> update_ovn_listen_config env else ret tt
    if o.services.chassis then start_chassis env bgp o.encap_ip else ret tt
    dpu_setup env libs.devlink
    on_error (wrapf "failed to enable BGP from OVS external IDs: ") (enable_bgp_from_ovs env bgp)
