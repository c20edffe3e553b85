-- ===== src/Client.antt =====
-- microovn/client/client.go: the requests of the client, each with the answer that it decodes. The timeouts of
-- the requests are left out.
use microovn.Prelude.{ℕ, String, Bool, true, false, Option, List, [], ◌∷◌, ◌==◌, eqb, if◌then◌else◌}
use microovn.Text.{◌<>◌}
use microovn.Types.{ExtraBgpConfig, WarningSet, srv_central}
use microovn.ApiBgp.{SetupBgpResponse}
use microovn.ApiCertificates.{IssueCertificateResponse, RegenerateCaResponse, CaInfo}
use microovn.ApiConfig.{Answer, GetAnswer}
use microovn.ApiServices.{ServiceControlResponse}
use microovn.Cli.Status.{FetchError, no_error, generic, not_supported, SchemaVersionResult}
use microovn.Commands.{OvsdbSpec}
use microovn.Effect.{Env, M, ret, attempt, either, call, issue, on_error, errorf, wrapf, ◌>>=◌}

-- `RegenerateEnvResponse`
pub record RegenerateEnvResponse : Type 0 where
  pub success : Bool
  pub errors : List String

-- What encoding/json decodes from the body of a response, what it encodes of the BGP configuration, and the
-- HTTP status of an error of the REST client, 0 where it has none.
pub record Decoders : Type 0 where
  pub services : String → List (String × String)
  pub issued : String → IssueCertificateResponse
  pub ca : String → RegenerateCaResponse
  pub ca_info : String → CaInfo
  pub version : String → String
  pub report : String → List SchemaVersionResult
  pub control : String → ServiceControlResponse
  pub regenerated : String → RegenerateEnvResponse
  pub answer : String → Answer
  pub value : String → GetAnswer
  pub setup : String → SetupBgpResponse
  pub bgp_config : Option ExtraBgpConfig → String
  pub status : String → ℕ

module _ (env : Env) (json : Decoders) where
  -- `c.Query(ctx, method, types.APIVersion, path, body, &response)`
  abbrev pub request : {A : Type 0} → String → String → List String → (String → A) → M A
  request method path body decode = do out ← call env (issue method (path ∷ body)); ret (decode out)

  -- `GetServices`
  unfoldable pub list_all : M (List (String × String))
  list_all =
      on_error (wrapf "failed listing services: ") (request "GET" "services" [] json.services)

  -- `ReissueCertificate`
  unfoldable pub reissue_certificate : String → M IssueCertificateResponse
  reissue_certificate service =
      on_error (wrapf "failed to reissue certificate: ")
        (request "PUT" ("certificates/" <> service) [] json.issued)

  -- `ReissueAllCertificate`
  unfoldable pub reissue_all_certificate : M IssueCertificateResponse
  reissue_all_certificate =
      on_error (wrapf "failed to reissue certificate: ")
        (request "PUT" "certificates" [] json.issued)

  -- `RegenerateCA`
  unfoldable pub regenerate_ca : M RegenerateCaResponse
  regenerate_ca = on_error (wrapf "failed to generate new CA: ") (request "PUT" "ca" [] json.ca)

  -- `SetCA`
  unfoldable pub set_ca : String → String → M RegenerateCaResponse
  set_ca cert key =
      on_error (wrapf "failed to set CA certificate and key: ")
        (request "POST" "ca" (cert ∷ key ∷ []) json.ca)

  -- `GetCaInfo`
  unfoldable pub get_ca_info : M CaInfo
  get_ca_info = on_error (wrapf "failed to get CA info: ") (request "GET" "ca" [] json.ca_info)

  -- `getOvsdbSchemaVersion`: a status of 404 says that the member does not know the endpoint.
  unfoldable pub get_ovsdb_schema_version : OvsdbSpec → String → M (String × FetchError)
  get_ovsdb_schema_version db target = do
    r ← attempt (request "GET" ("ovsdb/schema/" <> db.short_name <> "/" <> target) [] json.version)
    either r (λ v. ret (v, no_error))
        λ e. if eqb (json.status e.message) 404 then ret ("", not_supported) else ret ("", generic)

  -- `GetExpectedOvsdbSchemaVersion`, `GetActiveOvsdbSchemaVersion`
  abbrev pub get_expected_version : OvsdbSpec → M (String × FetchError)
  get_expected_version db = get_ovsdb_schema_version db "expected"

  abbrev pub get_active_version : OvsdbSpec → M (String × FetchError)
  get_active_version db = get_ovsdb_schema_version db "active"

  -- `GetAllExpectedOvsdbSchemaVersions`
  unfoldable pub get_all_expected_versions : OvsdbSpec → M (List SchemaVersionResult)
  get_all_expected_versions db =
      on_error (wrapf "failed to get expected ovsdb schema versions from cluster: ")
        (request "GET" ("ovsdb/schema/" <> db.short_name <> "/expected/all") [] json.report)

  -- `RegenerateEnvironment`
  unfoldable pub regenerate_environment : M RegenerateEnvResponse
  regenerate_environment =
      on_error (λ e. errorf ("failed to regenerate environment files: '" <> e.message <> "'"))
        (request "POST" "env" [] json.regenerated)

  -- The environment of the cluster is written again if the service is central.
  abbrev after_central : String → M RegenerateEnvResponse
  after_central service =
      if service == srv_central
      then regenerate_environment
      else ret (record { success = false; errors = [] })

  abbrev flag : Bool → String
  flag true = "true"
  flag false = "false"

  -- `DisableService`
  unfoldable pub request_disable : String → Bool → String → M (WarningSet × RegenerateEnvResponse)
  request_disable service allow_last_central target = do
    scr ←
        on_error
          (λ e. errorf ("failed to disable service '" <> service <> "': '" <> e.message <> "'"))
          (request "DELETE" ("service/" <> service <> "?target=" <> target)
            (flag allow_last_central ∷ []) json.control)
    env_response ← after_central service
    ret (scr.warnings, env_response)

  -- `EnableService`
  unfoldable pub request_enable :
      String → Option ExtraBgpConfig → String → M (WarningSet × RegenerateEnvResponse)
  request_enable service extra_config target = do
    scr ←
        on_error
          (λ e. errorf ("failed to enable service '" <> service <> "': '" <> e.message <> "'"))
          (request "PUT" ("service/" <> service <> "?target=" <> target)
            (json.bgp_config extra_config ∷ []) json.control)
    env_response ← after_central service
    ret (scr.warnings, env_response)

  -- `SetConfig`
  unfoldable pub request_set : String → String → M Answer
  request_set key value = request "POST" "config" (key ∷ value ∷ []) json.answer

  -- `GetConfig`
  unfoldable pub request_get : String → M GetAnswer
  request_get key = request "GET" "config" (key ∷ []) json.value

  -- `DeleteConfig`
  unfoldable pub request_delete : String → M Answer
  request_delete key = request "DELETE" "config" (key ∷ []) json.answer

  -- `SetupBgp`, with the encoded request.
  unfoldable pub request_setup_bgp : String → M SetupBgpResponse
  request_setup_bgp body = request "POST" "bgp/setup" (body ∷ []) json.setup
