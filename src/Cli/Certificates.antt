-- ===== src/Cli/Certificates.antt =====
-- microovn/cmd/microovn/certificates_set_ca.go, certificates_reissue.go and certificates_regenerate_ca.go.
use microovn.Prelude.{String, Bool, not, ◌&&◌, ◌||◌, List, [], ◌∷◌, ◌==◌, if◌then◌else◌}
use microovn.Text.{◌<>◌}
use microovn.Effect.{
  Env, Error, Result, ok, err, panic, M, ret, lift, call, file, issue, on_error, errorf, ◌>>=◌,
  ◌>>◌,
}
use microovn.Client.{Decoders, set_ca, reissue_certificate, reissue_all_certificate, regenerate_ca}
use microovn.Cli.Printing.{print_issued, print_ca}
use microovn.Cli.ServiceControl.{connect}

-- `pem.Block`
pub record PemBlock : Type 0 where
  pub kind : String
  pub bytes : String

-- `pem.Encode` into a buffer, and the blocks that `pem.Decode` finds one after the other until it finds
-- none.
pub record Pem : Type 0 where
  pub encode : PemBlock → Result String
  pub blocks : String → List PemBlock

abbrev pub is_key : PemBlock → Bool
is_key b = b.kind == "RSA PRIVATE KEY" || b.kind == "PRIVATE KEY" || b.kind == "EC PRIVATE KEY"

abbrev encoded : String → Result String → Result String
encoded what (ok text) = ok text
encoded what (err e) = err (errorf ("failed to encode " <> what <> " block: " <> e.message))
encoded what panic = panic

-- The buffers after the loop of `extractCertsAndKey`.
unfoldable pub collect : Pem → String → String → List PemBlock → Result (String × String)
collect pem certs key [] = ok (certs, key)
collect pem certs key (b ∷ bs) =
    if b.kind == "CERTIFICATE"
    then (elim (encoded "certificate" (pem.encode b)) [
      | ok text ↦ collect pem (certs <> text) key bs
      | err e ↦ err e
      | panic ↦ panic
    ])
    else if is_key b && key == ""
    then (elim (encoded "key" (pem.encode b)) [
      | ok text ↦ collect pem certs text bs
      | err e ↦ err e
      | panic ↦ panic
    ])
    else collect pem certs key bs

abbrev both_found : Result (String × String) → Result (String × String)
both_found (err e) = err e
both_found panic = panic
both_found (ok (certs, key)) =
    if certs == ""
    then err (errorf "no certificates found")
    else if key == ""
    then err (errorf "no private key found")
    else ok (certs, key)

-- `extractCertsAndKey`
unfoldable pub extract_certs_and_key : Pem → String → Result (String × String)
unfolding collect
extract_certs_and_key pem text = both_found (collect pem "" "" (pem.blocks text))

-- The checks on the flags of `set-ca`.
unfoldable pub check_ca_flags : Bool → String → String → Result (Unit {0})
check_ca_flags combined cert key =
    let given = not (key == "") || not (cert == "") in
    if combined && given || not combined && not given
    then err (errorf "you must use --combined xor (--key and --cert)")
    else if not (key == "") && cert == "" || key == "" && not (cert == "")
    then err (errorf "you must use either both or none of --key and --cert")
    else ok tt

module _ (env : Env) (pem : Pem) where
  -- The certificates and the key, of the standard input or of two files.
  unfoldable pub read_ca_pair : Bool → String → String → M (String × String)
  unfolding extract_certs_and_key
  read_ca_pair combined cert key =
      if combined
      then (do
        text ←
            on_error (λ e. errorf ("failed to read stdin: " <> e.message))
              (call env (issue "io.ReadAll" ("stdin" ∷ [])))
        on_error (λ e. errorf ("failed to parse certificates and keys from stdin: " <> e.message))
            (lift (extract_certs_and_key pem text)))
      else (do
        certs ←
            on_error (λ e. errorf ("failed to read certificate file: " <> e.message))
              (call env (file "read" (cert ∷ [])))
        keys ←
            on_error (λ e. errorf ("failed to read private key file: " <> e.message))
              (call env (file "read" (key ∷ [])))
        ret (certs, keys))

abbrev command_failed : Error → Error
command_failed e = errorf ("command failed: " <> e.message)

module _ (env : Env) (json : Decoders) where
  -- `cmdCertificatesSetCA.Run`
  unfoldable pub set_ca_command : Pem → Bool → String → String → M (Unit {0})
  unfolding check_ca_flags read_ca_pair set_ca
  set_ca_command pem combined cert key = do
    lift (check_ca_flags combined cert key)
    pair ← read_ca_pair env pem combined cert key
    connect env json
    response ← on_error command_failed (set_ca env json pair.0 pair.1)
    print_ca env response

  -- `cmdCertificatesReissue.Run`
  unfoldable pub reissue_command : String → M (Unit {0})
  unfolding reissue_all_certificate reissue_certificate
  reissue_command service = do
    connect env json
    response ← on_error command_failed (
        if service == "all"
        then reissue_all_certificate env json
        else reissue_certificate env json service)
    print_issued env response

  -- `cmdCertificatesRegenerateCa.Run`
  unfoldable pub regenerate_ca_command : M (Unit {0})
  unfolding regenerate_ca
  regenerate_ca_command = do
    connect env json
    response ← on_error command_failed (regenerate_ca env json)
    print_ca env response
