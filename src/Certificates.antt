-- ===== src/Certificates.antt =====
-- microovn/ovn/certificates/certificates.go: the CA in the cluster database, and the certificates of
-- the services. The functions of crypto/* and encoding/pem are calls.
pub mod Ca
pub mod Custom
use microovn.Prelude.{
  ℕ, ◌+◌, ◌*◌, String, Bool, true, false, ◌||◌, List, [], ◌∷◌, ◌==◌, eqb, if◌then◌else◌,
}
use microovn.Text.{◌<>◌, format}
use microovn.Database.{ConfigItem}
use microovn.Database.Config.{get_config_item, create_config_item, update_config_item}
use microovn.Paths.{pki_ca_cert_file, get_service_cert_files}
use microovn.Effect.{
  Env, Error, Result, ok, err, panic, M, ret, raise, either, lift, attempt, call, now, issue, file,
  ◌>>=◌, ◌>>◌, transaction, on_error, errorf, wrapf,
}

pub data CertificateType : Type 0 where
  ca_type server_type client_type : CertificateType

-- What the switch of `issueCertificate` chooses: the flag of a CA, the bits of x509.KeyUsage and the
-- validity in hours.
pub record Profile : Type 0 where
  pub is_ca : Bool
  pub key_usage : ℕ
  pub hours : ℕ

abbrev pub profile : CertificateType → Profile
profile CertificateType.ca_type = record {
  is_ca = true;
  key_usage = 32 + 64;
  hours = 10 * 365 * 24;
}
profile CertificateType.server_type = record {
  is_ca = false;
  key_usage = 1 + 4 + 16 + 2;
  hours = 2 * 365 * 24;
}
profile CertificateType.client_type = record {
  is_ca = false;
  key_usage = 1 + 4 + 8 + 16;
  hours = 2 * 365 * 24;
}

-- `fmt.Errorf("…: %s", err)`
abbrev pub flat : String → Error → Error
flat m e = errorf (m <> e.message)

abbrev pub flag_text : Bool → String
flag_text true = "yes"
flag_text false = "no"

module _ (env : Env) where
  -- `issueCertificate`: the PEM texts of the certificate and of its key.
  unfoldable pub issue_certificate :
      String → String → CertificateType → List String → M (String × String)
  issue_certificate cn service_name cert_type signer = do
    key_pair ←
        on_error (wrapf ("failed to generate key pair for '" <> service_name <> "' certificate: "))
          (call env (issue "ecdsa.GenerateKey" []))
    valid_from ← now env
    serial ← on_error (wrapf "failed to generate serial number: ") (call env (issue "rand.Int" []))
    let p = profile cert_type
    cert ← on_error (wrapf ("failed to create certificate for " <> service_name <> ": ")) (
        call env (
          issue "x509.CreateCertificate" (
            serial
            ∷ cn
            ∷ service_name
            ∷ valid_from
            ∷ format p.hours
            ∷ format p.key_usage
            ∷ flag_text p.is_ca
            ∷ key_pair
            ∷ signer)))
    key ← call env (issue "x509.MarshalPKCS8PrivateKey" (key_pair ∷ []))
    ret (cert, key)

  -- One of the three upserts of `storeCA`: whether the record was changed.
  unfoldable pub upsert : String → String → String → M Bool
  upsert label key value = do
    r ← attempt (get_config_item env key)
    either r
        (λ item.
          if item.value == value
          then ret false
          else on_error (flat ("failed to store " <> label <> " in the database: "))
              (update_config_item env key key value)
            >> ret true)
        (λ e.
          on_error (flat ("failed to store " <> label <> " in the database: "))
            (create_config_item env key value)
          >> ret true)

  -- The transaction of `storeCA`.
  unfoldable pub upsert_ca : String → String → Bool → M Bool
  upsert_ca cert key auto_renew = do
    a ← upsert "CA certificate" "ca_cert" cert
    b ← upsert "CA private key" "ca_key" key
    c ← upsert "CA auto-renew flag" "ca_auto_renew" (flag_text auto_renew)
    ret (a || b || c)

  -- `storeCA`
  unfoldable pub store_ca : String → String → Bool → M Bool
  store_ca cert key auto_renew = transaction env (upsert_ca cert key auto_renew)

  -- `GenerateNewCACertificate`
  unfoldable pub generate_new_ca_certificate : M Bool
  generate_new_ca_certificate = do
    pair ← issue_certificate "MicroOVN CA" "MicroOVN CA" CertificateType.ca_type []
    store_ca pair.0 pair.1 true

  -- `DumpCA`
  unfoldable pub dump_ca : M (Unit {0})
  dump_ca = do
    item ← transaction env (
        on_error (flat "failed to get CA certificate from the database: ")
          (get_config_item env "ca_cert"))
    let path = pki_ca_cert_file env
    on_error (wrapf "failed to create file for CA certificate: ")
        (call env (file "create" (path ∷ [])))
    on_error (wrapf "unable to set permissions for CA certificate: ")
        (call env (file "chmod" (path ∷ "0600" ∷ [])))
    on_error (wrapf ("failed to write CA certificate into file " <> path <> ": "))
        (call env (file "write" (path ∷ item.value ∷ [])))
    ret tt

  -- The transaction of `IsCaRenewable`. An api.StatusError has a status.
  unfoldable pub read_renewable : M Bool
  read_renewable = do
    r ← attempt (get_config_item env "ca_auto_renew")
    either r (λ item. if item.value == "no" then ret false else ret true)
        (λ e. if eqb e.status 0 then raise e else ret true)

  -- `IsCaRenewable`
  unfoldable pub is_ca_renewable : M Bool
  is_ca_renewable = transaction env read_renewable

  -- `parsePrivateKey`: three formats, one after the other.
  unfoldable pub parse_private_key : String → M String
  parse_private_key raw = do
    r ← attempt (call env (issue "x509.ParsePKCS8PrivateKey" (raw ∷ [])))
    either r ret λ e. do
      q ← attempt (call env (issue "x509.ParseECPrivateKey" (raw ∷ [])))
      either q ret λ d. call env (issue "x509.ParsePKCS1PrivateKey" (raw ∷ []))

  -- The transaction of `GetCA`.
  unfoldable pub read_ca : M (String × String)
  read_ca = do
    cert ←
        on_error (flat "failed to fetch CA certificate from database: ")
          (get_config_item env "ca_cert")
    key ←
        on_error (flat "failed to fetch CA private key from database: ")
          (get_config_item env "ca_key")
    ret (cert.value, key.value)

  -- `GetCA`: the parsed certificate and the parsed key.
  unfoldable pub get_ca : M (String × String)
  get_ca = do
    records ← transaction env read_ca
    cert_data ←
        on_error (λ e. errorf "failed to decode CA certificate's PEM data")
          (call env (issue "pem.Decode" (records.0 ∷ [])))
    key_data ←
        on_error (λ e. errorf "failed to decode CA Private Key's PEM data")
          (call env (issue "pem.Decode" (records.1 ∷ [])))
    cert ←
        on_error (flat "failed to parse CA certificate: ")
          (call env (issue "x509.ParseCertificate" (cert_data ∷ [])))
    key ← on_error (flat "failed to parse CA private key: ") (parse_private_key key_data)
    ret (cert, key)

  -- `getServiceCertificatePaths`
  unfoldable pub get_service_certificate_paths : String → Result (String × String)
  get_service_certificate_paths service =
      if service == "client"
        || service == "ovnnb"
        || service == "ovnsb"
        || service == "ovn-northd"
        || service == "ovn-controller"
      then ok (get_service_cert_files env service)
      else err (errorf ("unknown service '" <> service <> "'. can't generate certificate paths"))

  -- `os.Create`, then `Chmod` to certFileMode.
  abbrev create_file : String → String → M (Unit {0})
  create_file what path = do
    on_error (wrapf ("failed to create file for " <> what <> ": "))
        (call env (file "create" (path ∷ [])))
    on_error (wrapf ("unable to set permissions for " <> what <> ": "))
        (call env (file "chmod" (path ∷ "0600" ∷ [])))
    ret tt

  -- `GenerateNewServiceCertificate`
  unfoldable pub generate_new_service_certificate : String → CertificateType → M (Unit {0})
  generate_new_service_certificate service cert_type = do
    files ←
        on_error (flat "failed to generate certificate: ")
          (lift (get_service_certificate_paths service))
    create_file (service <> " certificate") files.0
    create_file (service <> " private key") files.1
    ca ← get_ca
    pair ←
        on_error (wrapf ("failed to issue certificate for " <> service <> ": "))
          (issue_certificate env.name service cert_type (ca.0 ∷ ca.1 ∷ []))
    on_error (wrapf ("failed to write " <> service <> " certificate into file " <> files.0 <> ": "))
        (call env (file "write" (files.0 ∷ pair.0 ∷ [])))
    on_error (wrapf ("failed to write " <> service <> " private key into file " <> files.1 <> ": "))
        (call env (file "write" (files.1 ∷ pair.1 ∷ [])))
    ret tt
