-- ===== src/Hooks/Options.antt =====
-- The options of `init` that the hooks of microovn/ovn/bootstrap.go and microovn/ovn/join.go read, and what both
-- hooks do once they know the services to start.
use microovn.Prelude.{String, Bool, none, List, [], ◌∷◌, ◌==◌, if◌then◌else◌}
use microovn.Text.{◌<>◌}
use microovn.Types.{srv_central, srv_chassis}
use microovn.Commands.{vs_ctl}
use microovn.Environment.{generate_environment}
use microovn.Cluster.{update_ovn_controller_remote_config}
use microovn.Node.Bgp.{BgpService}
use microovn.Node.Lifecycle.{enable_service}
use microovn.Hooks.Requested.{RequestedServices, new_requested_services}
use microovn.Effect.{Env, M, ret, lift, call, file, on_error, errorf, wrapf, ◌>>=◌, ◌>>◌}

-- The variables that the loop over the options sets; the texts of the files are empty at first.
pub record Options : Type 0 where
  pub encap_ip : String
  pub cert : String
  pub key : String
  pub services : RequestedServices

module _ (env : Env) where
  -- The case `ovn-services` of both loops.
  unfoldable pub read_services : Options → String → M Options
  read_services o v = if v == "auto" then ret o else do
    services ←
        on_error (wrapf "failed to parse requested services: ") (lift (new_requested_services v))
    ret (record o { services = services })

  -- One round of the loop of `Bootstrap`.
  unfoldable pub read_option : Options → String → String → M Options
  read_option o k v =
      if k == "ovn-encap-ip"
      then ret (record o { encap_ip = v })
      else if k == "ovn-ca-cert"
      then (do
        text ← on_error (wrapf "failed to read CA certificate: ") (call env (file "read" (v ∷ [])))
        ret (record o { cert = text }))
      else if k == "ovn-ca-key"
      then (do
        text ← on_error (wrapf "failed to read CA private key: ") (call env (file "read" (v ∷ [])))
        ret (record o { key = text }))
      else if k == "ovn-services"
      then read_services o v
      else ret o

  -- The loop of `Bootstrap`, over the options in the order in which it meets them.
  unfoldable pub read_options : Options → List (String × String) → M Options
  read_options o [] = ret o
  read_options o ((k, v) ∷ rest) = do p ← read_option o k v; read_options p rest

  -- The loop of `Join`, which reads no CA.
  unfoldable pub read_join_options : Options → List (String × String) → M Options
  read_join_options o [] = ret o
  read_join_options o ((k, v) ∷ rest) = do
    p ←
        if k == "ovn-encap-ip"
        then ret (record o { encap_ip = v })
        else if k == "ovn-services"
        then read_services o v
        else ret o
    read_join_options p rest

module _ (env : Env) (bgp : BgpService) where
  abbrev pub enable_if : Bool → String → M (Unit {0})
  enable_if b service = if b then enable_service env bgp service none else ret tt

  -- The chassis, and the options of Open_vSwitch that go with it.
  unfoldable pub start_chassis : String → M (Unit {0})
  start_chassis encap_ip = do
    enable_service env bgp srv_chassis none
    on_error (λ e. errorf ("error configuring OVS parameters: " <> e.message))
        (vs_ctl env (
          "set"
          ∷ "open_vswitch"
          ∷ "."
          ∷ ("external_ids:system-id=" <> env.name)
          ∷ "external_ids:ovn-encap-type=geneve"
          ∷ ("external_ids:ovn-encap-ip=" <> encap_ip)
          ∷ []))
    update_ovn_controller_remote_config env

  -- Central, and the environment file that then names this node.
  unfoldable pub start_central : M (Unit {0})
  start_central = do
    enable_service env bgp srv_central none
    on_error (wrapf "failed to generate the daemon configuration: ") (generate_environment env)
