-- ===== src/ApiCertificates.antt =====
-- microovn/api/certificates: the endpoints that issue the certificates of the services and replace the CA, with
-- their answers from microovn/api/types/certificates.go.
use microovn.Prelude.{
  String, Bool, true, false, not, Option, none, some, List, [], ◌∷◌, ◌++◌, if◌then◌else◌,
}
use microovn.Text.{◌<>◌, contains, join}
use microovn.Netplan.{Entries, put_entry}
use microovn.Certificates.{
  server_type, dump_ca, generate_new_ca_certificate, generate_new_service_certificate,
  is_ca_renewable,
}
use microovn.Certificates.Custom.{X509, set_new_ca_certificate}
use microovn.Node.{has_service_active}
use microovn.Api.{Response, sync, internal_error, not_found, smart_error, Replies, cluster, query}
use microovn.Effect.{
  Env, Error, Result, ok, err, panic, M, ret, lift, panics, attempt, either, call, issue, errorf,
  ◌>>=◌,
}
use microovn.Effect.Errors.{joined_errors}

-- `IssueCertificateResponse`
pub record IssueCertificateResponse : Type 0 where
  pub success : List String
  pub failed : List String

-- `RegenerateCaResponse`, and `NewRegenerateCaResponse`
pub record RegenerateCaResponse : Type 0 where
  pub new_ca : Bool
  pub reissued_certificates : Entries IssueCertificateResponse
  pub errors : List String

abbrev pub new_regenerate_ca_response : RegenerateCaResponse
new_regenerate_ca_response = record { new_ca = false; reissued_certificates = []; errors = [] }

-- `CaInfo`
pub record CaInfo : Type 0 where
  pub auto_renew : Bool
  pub error : String

-- The value of a lookup that may have failed, and its error.
abbrev found : Result Bool → Bool
found (ok b) = b
found (err e) = false
found panic = false

abbrev lookup_error : Result Bool → List Error
lookup_error (err e) =
    errorf ("failed to lookup local services eligible for certificate refresh: " <> e.message) ∷ []
lookup_error _ = []

-- The services of a node on which central or the switch is enabled, or both; always the client.
unfoldable pub eligible : Bool → Bool → List String
eligible has_central has_switch =
    (if has_central then "ovnnb" ∷ "ovnsb" ∷ "ovn-northd" ∷ [] else [])
    ++ (if has_switch then "ovn-controller" ∷ [] else [])
    ++ "client" ∷ []

-- The services and the error that `enabledOvnServices` returns, from its two lookups.
unfoldable pub with_errors : List String → List Error → Result (List String)
with_errors services [] = ok services
with_errors services (e ∷ errs) = err (joined_errors (e ∷ errs))

module _ (env : Env) where
  -- `enabledOvnServices`; the services that it returns next to an error are not used.
  unfoldable pub enabled_ovn_services : M (List String)
  enabled_ovn_services = do
    c ← attempt (has_service_active env "central")
    s ← attempt (has_service_active env "switch")
    lift (with_errors (eligible (found c) (found s)) (lookup_error c ++ lookup_error s))

  -- The loop of `reissueAllCertificates`.
  unfoldable pub reissue_each : List String → M IssueCertificateResponse
  reissue_each [] = ret (record { success = []; failed = [] })
  reissue_each (service ∷ services) = do
    r ← attempt (generate_new_service_certificate env service server_type)
    rest ← reissue_each services
    either r (λ u. ret (record rest { success = service ∷ rest.success }))
        λ e. ret (record rest { failed = service ∷ rest.failed })

  -- `reissueAllCertificates`
  unfoldable pub reissue_all_certificates : M IssueCertificateResponse
  reissue_all_certificates = do services ← enabled_ovn_services; reissue_each services

  -- `issueCertificatesPut` for a service whose name is unescaped.
  unfoldable pub issue_certificates_put : String → M (Response IssueCertificateResponse)
  issue_certificates_put service = do
    e ← attempt enabled_ovn_services
    either e
        (λ eligible_services.
          if not (contains eligible_services service)
          then ret (
              not_found (
                "can't issue certificate for service '"
                <> service
                <> "', service is not enabled on this member, enabled services: "
                <> join ", " eligible_services))
          else do
            r ← attempt (generate_new_service_certificate env service server_type)
            either r (λ u. ret (sync true (record { success = service ∷ []; failed = [] })))
                (λ d. ret (sync false (record { success = []; failed = service ∷ [] }))))
        (λ d. ret (internal_error "internal server error"))

  -- `issueCertificatesAllPut`
  unfoldable pub issue_certificates_all_put : M (Response IssueCertificateResponse)
  issue_certificates_all_put = do
    r ← attempt reissue_all_certificates
    either r (λ response. ret (sync true response))
        (λ e. ret (internal_error "internal server error"))

  -- `infoCaGet`
  unfoldable pub info_ca_get : M (Response CaInfo)
  info_ca_get = do
    r ← attempt (is_ca_renewable env)
    either r (λ b. ret (sync true (record { auto_renew = b; error = "" })))
        λ e. ret (
          sync false (record {
            auto_renew = false;
            error = "Failed to get CA renewability. See logs for more details.";
          }))

  -- The end of `updateOvnClusterCertificates`, on the member itself. Where no services are found,
  -- `*reissuedCertificates` is a nil pointer.
  unfoldable pub reissue_local : RegenerateCaResponse → M (Response RegenerateCaResponse)
  unfolding put_entry
  reissue_local response = do
    d ← attempt (dump_ca env)
    either d
        (λ u. do
          r ← attempt reissue_all_certificates
          either r
              (λ reissued. ret (
                sync true (record response {
                  reissued_certificates =
                      put_entry env.name reissued response.reissued_certificates;
                })))
              (λ e. panics))
        (λ e. ret (sync false response))

-- `responseData.ReissuedCertificates[host] = service` for each entry of a reply.
unfoldable pub put_all :
    List (String × (List String × List String))
    → Entries IssueCertificateResponse
    → Entries IssueCertificateResponse
unfolding put_entry
put_all [] m = m
put_all ((host, (done, not_done)) ∷ rest) m =
    put_all rest (put_entry host (record { success = done; failed = not_done }) m)

module _ (env : Env) (replies : Replies) where
  -- The query of the other members, in the order of their replies.
  unfoldable pub notify_members : RegenerateCaResponse → List String → M RegenerateCaResponse
  unfolding put_all
  notify_members response [] = ret response
  notify_members response (url ∷ urls) = do
    r ← attempt (call env (issue "ca" (url ∷ [])))
    next ←
        either r
          (λ out. ret (record response {
            reissued_certificates = put_all (replies.reissued out) response.reissued_certificates;
          }))
          (λ e. ret (record response {
            errors =
                response.errors
                ++ ("failed to contact cluster member with address \"" <> url <> "\": "
                    <> e.message)
                  ∷ [];
          }))
    notify_members next urls

  -- `updateOvnClusterCertificates` on the member that was asked first, and on one that is notified.
  unfoldable pub update_first : RegenerateCaResponse → M (Response RegenerateCaResponse)
  update_first response = if not response.new_ca then ret (sync true response) else do
    c ← attempt (cluster env replies)
    either c
        (λ clients. do
          q ← attempt (query env)
          either q
              (λ out. do notified ← notify_members response clients; reissue_local env notified)
              (λ e. ret (smart_error e)))
        (λ e. ret (sync false response))

  unfoldable pub update_ovn_cluster_certificates :
      Bool → RegenerateCaResponse → M (Response RegenerateCaResponse)
  update_ovn_cluster_certificates true response = reissue_local env response
  update_ovn_cluster_certificates false response = update_first response

  -- What both handlers do with the outcome of storing a CA.
  unfoldable pub after_store : Result Bool → M (Response RegenerateCaResponse)
  after_store r =
      either r (λ updated. update_first (record new_regenerate_ca_response { new_ca = updated }))
        (λ e. ret (sync false new_regenerate_ca_response))

  -- `regenerateCaPut`; the flag is whether the request is a notification.
  unfoldable pub regenerate_ca_put : Bool → M (Response RegenerateCaResponse)
  regenerate_ca_put true = update_ovn_cluster_certificates true new_regenerate_ca_response
  regenerate_ca_put false = do r ← attempt (generate_new_ca_certificate env); after_store r

  -- `setCaPost`; the certificate and the key are those of the decoded request.
  unfoldable pub set_ca_post :
      X509 → Bool → Option (String × String) → M (Response RegenerateCaResponse)
  set_ca_post x509 true body = update_ovn_cluster_certificates true new_regenerate_ca_response
  set_ca_post x509 false none = ret (sync false new_regenerate_ca_response)
  set_ca_post x509 false (some (cert, key)) = do
    r ← attempt (set_new_ca_certificate env x509 cert key)
    after_store r
