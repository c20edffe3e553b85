-- ===== src/Cli/CertificatesReport.antt =====
-- microovn/cmd/microovn/certificates_list.go: the command list, and what it prints.
use microovn.Prelude.{String, not, Option, none, some, [], ◌∷◌, ◌==◌, if◌then◌else◌}
use microovn.Text.{◌<>◌}
use microovn.Environment.{is_ok}
use microovn.Effect.{Env, M, raise, attempt, call, file, issue, errorf, ◌>>=◌, ◌>>◌}
use microovn.Client.{Decoders, list_all, get_ca_info}
use microovn.Cli.CertificatesList.{
  Dates, CaCertInfo, CertBundle, CertificatePaths, populate_expected_certificates,
}
use microovn.Cli.Printing.{say}
use microovn.Cli.ServiceControl.{connect}

module _ (env : Env) where
  -- `printFileStatus`
  unfoldable pub print_file_status : String → M (Unit {0})
  print_file_status path = do
    r ← attempt (call env (file "stat" (path ∷ [])))
    say env (path <> " (" <> (if is_ok r then "OK: Present" else "Error: Missing file") <> ")\n")

  -- `printCertExpDate`
  abbrev pub print_date : String → M (Unit {0})
  print_date date = say env ("expiration date: " <> date <> "\n")

  -- `certBundle.printCertStatus`
  unfoldable pub print_bundle : Option CertBundle → M (Unit {0})
  unfolding print_file_status
  print_bundle none = say env "Not present.\n"
  print_bundle (some b) = do
    print_file_status b.cert
    print_date b.exp_date
    print_file_status b.key

  -- `caCertInfo.printCertStatus`
  unfoldable pub print_ca_status : Option CaCertInfo → M (Unit {0})
  unfolding print_file_status
  print_ca_status none = say env "Not present.\n"
  print_ca_status (some c) = do
    print_file_status c.cert
    print_date c.exp_date
    say env ("Auto-renew: " <> (if c.auto_renew then "true" else "false") <> "\n")

  -- `printOvnCertStatus`
  unfoldable pub print_certificates : CertificatePaths → M (Unit {0})
  unfolding print_bundle print_ca_status
  print_certificates p = do
    say env "[OVN CA]\n"
    print_ca_status p.ca
    say env "\n[OVN Northbound Database]\n"
    print_bundle p.nb
    say env "\n[OVN Southbound Database]\n"
    print_bundle p.sb
    say env "\n[OVN Northd Service]\n"
    print_bundle p.northd
    say env "\n[OVN Chassis Service]\n"
    print_bundle p.chassis
    say env "\n[Client]\n"
    print_bundle p.client

  -- `cmdCertificatesList.Run`; `marshal` is json.Marshal of the paths, which does not fail on them.
  unfoldable pub list_certificates_command :
      Decoders → Dates → (CertificatePaths → String) → String → M (Unit {0})
  unfolding print_certificates list_all get_ca_info populate_expected_certificates
  list_certificates_command json dates marshal format = do
    host ← call env (issue "os.Hostname" [])
    connect env json
    ca_info ← get_ca_info env json
    if not (ca_info.error == "") then raise (errorf ca_info.error) else do
      services ← list_all env json
      paths ← populate_expected_certificates env dates services ca_info.auto_renew host
      if format == "text"
          then print_certificates paths
          else if format == "json"
          then say env (marshal paths)
          else raise (errorf ("unknown output format specified: " <> format))
