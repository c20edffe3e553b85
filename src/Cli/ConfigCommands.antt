-- ===== src/Cli/ConfigCommands.antt =====
-- microovn/cmd/microovn/config_set.go, config_get.go, config_delete.go and config_list.go, and setup_bgp.go.
pub mod Told
use microovn.Prelude.{ℕ, String, not, ◌&&◌, [], ◌∷◌, ◌==◌, if◌then◌else◌}
use microovn.Text.{◌<>◌}
use microovn.Types.{empty_bgp_config, parse_asn_range}
use microovn.ApiBgp.{SetupBgpRequest, SetupBgpResponse}
use microovn.ApiConfig.{central_ips_key}
use microovn.Effect.{
  Env, Error, Result, ok, err, panic, M, ret, raise, lift, on_error, errorf, wrapf, ◌>>=◌, ◌>>◌,
}
use microovn.Client.{Decoders, request_set, request_get, request_delete, request_setup_bgp}
use microovn.Cli.Printing.{say, say_each}
use microovn.Cli.ServiceControl.{connect}

abbrev option_failed : String → String → Error → Error
option_failed what key e =
    errorf ("failed to " <> what <> " config option '" <> key <> "': " <> e.message)

-- The response holds no error.
abbrev without_error : String → String → String → M (Unit {0})
without_error what key error =
    if error == "" then ret tt else raise (option_failed what key (errorf error))

-- The request of `setup bgp`, without the range.
abbrev pub setup_request : String → String → String → String → SetupBgpRequest
setup_request interface bridge asn ip_range = record {
  config = record empty_bgp_config { external_connection = interface; bridge = bridge; asn = asn };
  connection_ip4_range = ip_range;
}

abbrev with_range : SetupBgpRequest → Result (ℕ × ℕ) → Result SetupBgpRequest
with_range r (ok (min, max)) =
    ok (record r { config = record r.config { asn_min = min; asn_max = max } })
with_range r (err e) = err e
with_range r panic = panic

-- The check of the flags is that of the request.
unfoldable pub check_setup_flags : String → String → Result (Unit {0})
check_setup_flags interface bridge =
    if interface == "" && bridge == ""
    then err (errorf "either --interface or --br must be provided")
    else if not (interface == "") && not (bridge == "")
    then err (errorf "--interface and --br are mutually exclusive")
    else ok tt

module _ (env : Env) (json : Decoders) where
  -- `cmdConfigSet.Run`
  unfoldable pub config_set_command : String → String → M (Unit {0})
  unfolding request_set
  config_set_command key value = do
    connect env json
    response ← on_error (option_failed "set" key) (request_set env json key value)
    without_error "set" key response.error
    say env ("Successfully set config option '" <> key <> "'\n")

  -- `cmdConfigDelete.Run`
  unfoldable pub config_delete_command : String → M (Unit {0})
  unfolding request_delete
  config_delete_command key = do
    connect env json
    response ← on_error (option_failed "delete" key) (request_delete env json key)
    without_error "delete" key response.error
    say env ("Successfully deleted config option '" <> key <> "'\n")

  -- `cmdConfigGet.Run`
  unfoldable pub config_get_command : String → M (Unit {0})
  unfolding request_get
  config_get_command key = do
    connect env json
    response ← on_error (option_failed "get" key) (request_get env json key)
    without_error "get" key response.error
    if response.is_set then say env (response.value <> "\n") else ret tt

  -- `cmdConfigList.Run`
  unfoldable pub config_list_command : M (Unit {0})
  config_list_command = do
    say env "Available options:\n"
    say_each env "" "\n" (central_ips_key ∷ [])

  unfoldable pub report_setup : SetupBgpResponse → M (Unit {0})
  report_setup r =
      if not r.success
      then (do
        say env ("BGP setup failed: " <> r.message <> "\n")
        say_each env "  " "\n" r.errors
        raise (errorf "BGP setup did not complete successfully"))
      else say env (r.message <> "\n")

  -- `cmdSetupBgp.Run`; `encode` is the JSON of the request.
  unfoldable pub setup_bgp_command :
      (SetupBgpRequest → String) → String → String → String → String → String → M (Unit {0})
  unfolding request_setup_bgp report_setup check_setup_flags
  setup_bgp_command encode interface bridge asn asn_range ip_range = do
    lift (check_setup_flags interface bridge)
    connect env json
    let req = setup_request interface bridge asn ip_range
    full ← if asn_range == "" then ret req else lift (with_range req (parse_asn_range asn_range))
    resp ← on_error (wrapf "BGP setup failed: ") (request_setup_bgp env json (encode full))
    report_setup resp
