-- ===== src/ApiServices.antt =====
-- microovn/api/services: the endpoints that enable, disable and list services.
use microovn.Prelude.{
  String, Bool, true, not, Option, none, some, List, ◌⊎◌, inl, inr, if◌then◌else◌,
}
use microovn.Text.{◌<>◌}
use microovn.Types.{ExtraBgpConfig, WarningSet, check_valid_service}
use microovn.Node.{service_warnings, list_services}
use microovn.Node.Bgp.{BgpService}
use microovn.Node.Lifecycle.{enable_service, disable_service}
use microovn.Api.{Response, sync, bad_request, internal_error}
use microovn.Effect.{Env, M, ret, attempt, either, ◌>>=◌}

-- `ServiceControlResponse`
pub record ServiceControlResponse : Type 0 where
  pub message : String
  pub warnings : WarningSet

module _ (env : Env) where
  -- The warnings at the end of both handlers.
  unfoldable pub with_warnings : String → M (Response ServiceControlResponse)
  with_warnings message = do
    r ← attempt (service_warnings env)
    either r (λ ws. ret (sync true (record { message = message; warnings = ws })))
        (λ e. ret (internal_error "internal server error"))

  -- `cmdServicesGet`
  unfoldable pub services_get : M (Response (List (String × String)))
  services_get = do
    r ← attempt (list_services env)
    either r (λ services. ret (sync true services)) (λ e. ret (internal_error e.message))

module _ (env : Env) (bgp : BgpService) where
  -- `enableService`; the body is the field bgpConfig of the decoded request, if it can be decoded.
  unfoldable pub enable_service_put :
      String → Option (Option ExtraBgpConfig) → M (Response ServiceControlResponse)
  enable_service_put service body =
      if not (check_valid_service service)
      then ret (internal_error "service does not exist")
      else elim body [
        | none ↦ ret (bad_request "failed to decode request")
        | some extra_config ↦ do
          r ← attempt (enable_service env bgp service extra_config)
          either r (λ u. with_warnings env (service <> " enabled"))
              (λ e. ret (internal_error e.message))
      ]

  -- `disableService`; the body is the field AllowDisableLastCentral of the decoded request, or the error
  -- of the decoder.
  unfoldable pub disable_service_delete :
      String → Bool ⊎ String → M (Response ServiceControlResponse)
  disable_service_delete service body =
      if not (check_valid_service service)
      then ret (internal_error "service does not exist")
      else elim body [
        | inl allow ↦ do
          r ← attempt (disable_service env bgp service allow)
          either r (λ u. with_warnings env (service <> " disabled"))
              (λ e. ret (internal_error e.message))
        | inr m ↦ ret (internal_error ("failed to decode request: " <> m))
      ]
