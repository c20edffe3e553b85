-- ===== src/Cli/StatusReport.antt =====
-- microovn/cmd/microovn/status.go: the command status.
use Prim.Native.String.{compare}
use Prim.Native.Nat.{Ordering}
use microovn.Prelude.{
  String, Bool, true, false, not, Option, none, some, List, [], ◌∷◌, ◌==◌, if◌then◌else◌,
}
use microovn.Text.{◌<>◌, join}
use microovn.Commands.{OvsdbSpec, OvsdbType, new_ovsdb_spec}
use microovn.Effect.{
  Env, Result, ok, err, panic, M, ret, raise, lift, attempt, either, call, issue, errorf, ◌>>=◌,
  ◌>>◌,
}
use microovn.Client.{Decoders, list_all, get_ca_info, get_active_version, get_all_expected_versions}
use microovn.Cli.Status.{
  FetchError, no_error, generic, not_supported, SchemaVersionResult, requires_attention,
  schema_report,
}
use microovn.Cli.CertificatesList.{
  Dates, CaCertInfo, CertBundle, CertificatePaths, cert_is_expired, populate_expected_certificates,
}
use microovn.Cli.Printing.{say}
use microovn.Cli.ServiceControl.{connect}

-- `sort.Strings`
unfoldable pub insert_text : String → List String → List String
insert_text s [] = s ∷ []
insert_text s (t ∷ ts) =
    let rest = insert_text s ts in elim (compare t s) [ Ordering.lt ↦ t ∷ rest | _ ↦ s ∷ t ∷ ts ]

unfoldable pub sort_texts : List String → List String
unfolding insert_text
sort_texts [] = []
sort_texts (s ∷ ss) = insert_text s (sort_texts ss)

-- `srvServices`, before it is sorted; the services come with their locations.
unfoldable pub services_at : String → List (String × String) → List String
services_at name [] = []
services_at name ((service, location) ∷ rest) =
    let others = services_at name rest in
    if not (location == name) then others else service ∷ others

abbrev pub certificate_of_ca : Option CaCertInfo → Option String
certificate_of_ca none = none
certificate_of_ca (some c) = some c.cert

abbrev pub certificate_of : Option CertBundle → Option String
certificate_of none = none
certificate_of (some b) = some b.cert

abbrev failed_fetch : FetchError → Bool
failed_fetch e = elim e [ no_error ↦ false | generic ↦ true | not_supported ↦ true ]

module _ (env : Env) (json : Decoders) where
  -- `printOvsdbSummaryError`
  abbrev pub print_summary_error : String → String → M (Unit {0})
  print_summary_error db e =
      say env ("Error creating OVN " <> db <> " Database summary: " <> e <> "\n")

  module _ (members : String → List (String × String)) where
    -- `m.GetClusterMembers`, with the names and the addresses of the members.
    unfoldable pub get_cluster_members : M (List (String × String))
    get_cluster_members = do out ← call env (issue "GetClusterMembers" []); ret (members out)

    abbrev attention : Result Bool → Bool
    attention (ok b) = b
    attention (err e) = false
    attention panic = false

    -- `printOvsdbSchemaReport`
    unfoldable pub print_schema_report :
        OvsdbSpec → String → List SchemaVersionResult → M (Unit {0})
    unfolding get_cluster_members requires_attention schema_report
    print_schema_report db active expected = do
      found ←
          if attention (requires_attention active expected)
          then (do r ← attempt get_cluster_members; either r (λ ms. ret ms) (λ e. ret []))
          else ret []
      say env (schema_report found db.friendly_name active expected)

    -- What `reportOvsdbSchemaStatus` does with the database.
    unfoldable pub report_db : OvsdbSpec → M (Unit {0})
    unfolding print_schema_report get_all_expected_versions
    report_db db = do
      active ← get_active_version env json db
      if failed_fetch active.1
          then print_summary_error db.friendly_name
              ("failed to get OVN " <> db.friendly_name <> " active schema version")
          else ret tt
      r ← attempt (get_all_expected_versions env json db)
      expected ←
          either r (λ versions. ret versions)
            (λ e. do
              print_summary_error db.friendly_name
                  ("failed to get expected OVN " <> db.friendly_name <> " schema versions")
              ret [])
      print_schema_report db active.0 expected

    -- `reportOvsdbSchemaStatus`
    unfoldable pub report_ovsdb_schema_status : OvsdbType → M (Unit {0})
    unfolding report_db
    report_ovsdb_schema_status db_type = do
      r ← attempt (lift (new_ovsdb_spec env db_type))
      either r report_db (λ e. print_summary_error "" e.message)

    -- The loop over the members.
    unfoldable pub print_members : List (String × String) → List (String × String) → M (Unit {0})
    unfolding services_at sort_texts
    print_members services [] = ret tt
    print_members services ((name, address) ∷ rest) = do
      say env ("- " <> name <> " (" <> address <> ")\n")
      say env ("  Services: " <> join ", " (sort_texts (services_at name services)) <> "\n")
      print_members services rest

    module _ (dates : Dates) where
      -- `printCertsSummaryHelper`
      unfoldable pub print_certificate_summary : Option String → String → M (Unit {0})
      unfolding cert_is_expired
      print_certificate_summary none title = ret tt
      print_certificate_summary (some path) title = do
        r ← cert_is_expired env dates path
        elim r.1 [
          | none ↦ ret tt
          | some e ↦
              say env ("Failed to get " <> title <> " certificate expiration date: " <> e <> "\n")
        ]
        if r.0 then say env (title <> " certificate has expired\n") else ret tt

      -- `printCertsSummary`
      unfoldable pub print_certificates_summary : CertificatePaths → M (Unit {0})
      unfolding print_certificate_summary
      print_certificates_summary p = do
        print_certificate_summary (certificate_of_ca p.ca) "OVN CA"
        print_certificate_summary (certificate_of p.nb) "OVN Northbound Database"
        print_certificate_summary (certificate_of p.sb) "OVN Southbound Database"
        print_certificate_summary (certificate_of p.northd) "OVN Northd Service"
        print_certificate_summary (certificate_of p.chassis) "OVN Chassis Service"
        print_certificate_summary (certificate_of p.client) "Client"

      -- `cmdStatus.Run`
      unfoldable pub status_command : M (Unit {0})
      unfolding get_cluster_members print_members report_ovsdb_schema_status
          print_certificates_summary list_all get_ca_info populate_expected_certificates
      status_command = do
        connect env json
        services ← list_all env json
        found ← get_cluster_members
        say env "MicroOVN deployment summary:\n"
        print_members services found
        say env "OVN Database summary:\n"
        report_ovsdb_schema_status OvsdbType.nb_local
        report_ovsdb_schema_status OvsdbType.sb_local
        host ← call env (issue "os.Hostname" [])
        ca_info ← get_ca_info env json
        if not (ca_info.error == "") then raise (errorf ca_info.error) else do
          paths ← populate_expected_certificates env dates services ca_info.auto_renew host
          print_certificates_summary paths
