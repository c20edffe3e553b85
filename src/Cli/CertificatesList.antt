-- ===== src/Cli/CertificatesList.antt =====
-- microovn/cmd/microovn/certificates_list.go: which certificates a node should have.
use microovn.Prelude.{
  String, Bool, true, not, Option, none, some, List, [], ◌∷◌, ◌==◌, if◌then◌else◌,
}
use microovn.Paths.{
  pki_ca_cert_file, pki_ovn_nb_cert_files, pki_ovn_sb_cert_files, pki_ovn_northd_cert_files,
  pki_ovn_controller_cert_files, pki_client_cert_files,
}
use microovn.Effect.{Env, M, ret, attempt, either, call, now, file, issue, on_error, errorf, ◌>>=◌}

-- `caCertInfo`
pub record CaCertInfo : Type 0 where
  pub cert : String
  pub auto_renew : Bool
  pub exp_date : String

-- `certBundle`
pub record CertBundle : Type 0 where
  pub cert : String
  pub key : String
  pub exp_date : String

-- `ovnCertificatePaths`
pub record CertificatePaths : Type 0 where
  pub ca : Option CaCertInfo
  pub nb : Option CertBundle
  pub sb : Option CertBundle
  pub northd : Option CertBundle
  pub chassis : Option CertBundle
  pub client : Option CertBundle

-- What a parsed certificate tells: NotAfter and NotBefore as they are printed, and `t.After(u)`.
pub record Dates : Type 0 where
  pub validity : String → String × String
  pub is_after : String → String → Bool

-- `time.Time{}.String()`
abbrev pub zero_time : String
zero_time = "0001-01-01 00:00:00 +0000 UTC"

module _ (env : Env) (dates : Dates) where
  -- `certExpDate`
  unfoldable pub cert_exp_date : String → M (String × String)
  cert_exp_date path = do
    text ← call env (file "read" (path ∷ []))
    der ←
        on_error (λ e. errorf "failed to decode certificate's PEM data")
          (call env (issue "pem.Decode" (text ∷ [])))
    cert ← call env (issue "x509.ParseCertificate" (der ∷ []))
    ret (dates.validity cert)

  -- `certIsExpired`: the flag and, where there is one, the error.
  unfoldable pub cert_is_expired : String → M (Bool × Option String)
  cert_is_expired path = do
    r ← attempt (cert_exp_date path)
    either r
        (λ d. do
          time ← now env
          if dates.is_after time d.0
              then ret (true, none)
              else do later ← now env; ret (dates.is_after d.1 later, none))
        (λ e. ret (true, some e.message))

  -- A bundle with its date, or the zero date where there is none to be read.
  unfoldable pub bundle : String × String → M CertBundle
  bundle files = do
    r ← attempt (cert_exp_date files.0)
    date ← either r (λ d. ret d.0) (λ e. ret zero_time)
    ret (record { cert = files.0; key = files.1; exp_date = date })

  unfoldable pub add_central : CertificatePaths → M CertificatePaths
  add_central paths = do
    nb ← bundle (pki_ovn_nb_cert_files env)
    sb ← bundle (pki_ovn_sb_cert_files env)
    northd ← bundle (pki_ovn_northd_cert_files env)
    ret (record paths { nb = some nb; sb = some sb; northd = some northd })

  unfoldable pub add_chassis : CertificatePaths → M CertificatePaths
  add_chassis paths = do
    chassis ← bundle (pki_ovn_controller_cert_files env)
    ret (record paths { chassis = some chassis })

  -- The loop of `populateExpectedCertificates` over the services with their locations.
  unfoldable pub expect_each :
      String → CertificatePaths → List (String × String) → M CertificatePaths
  expect_each host paths [] = ret paths
  expect_each host paths ((service, location) ∷ rest) =
      if not (location == host) then expect_each host paths rest else do
        a ← if service == "central" then add_central paths else ret paths
        b ← if service == "chassis" then add_chassis a else ret a
        client ← bundle (pki_client_cert_files env)
        expect_each host (record b { client = some client }) rest

  abbrev no_paths : Option CaCertInfo → CertificatePaths
  no_paths ca = record {
    ca = ca;
    nb = none;
    sb = none;
    northd = none;
    chassis = none;
    client = none;
  }

  -- `populateExpectedCertificates`
  unfoldable pub populate_expected_certificates :
      List (String × String) → Bool → String → M CertificatePaths
  populate_expected_certificates services auto_renew host = do
    d ← cert_exp_date (pki_ca_cert_file env)
    expect_each host
        (no_paths
          (some (record { cert = pki_ca_cert_file env; auto_renew = auto_renew; exp_date = d.0 })))
        services
