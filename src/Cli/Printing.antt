-- ===== src/Cli/Printing.antt =====
-- What the commands of microovn/cmd/microovn print: the methods PrettyPrint of microovn/api/types/services.go
-- and certificates.go. Each print is a call with the text, and its outcome is dropped, as in the source.
use microovn.Prelude.{String, Bool, true, false, ◌||◌, not, any, List, [], ◌∷◌, if◌then◌else◌}
use microovn.Text.{◌<>◌}
use microovn.Types.{WarningSet}
use microovn.ApiCertificates.{IssueCertificateResponse, RegenerateCaResponse}
use microovn.Client.{RegenerateEnvResponse}
use microovn.Effect.{Env, M, ret, attempt, call, issue, ◌>>◌}

module _ (env : Env) where
  -- `fmt.Print`; a line of `fmt.Println` ends in "\n".
  unfoldable pub say : String → M (Unit {0})
  say text = do attempt (call env (issue "print" (text ∷ []))); ret tt

  -- `log.Println`
  abbrev say_log : String → M (Unit {0})
  say_log text = do attempt (call env (issue "log" (text ∷ []))); ret tt

  -- `WarningSet.PrettyPrint`
  unfoldable pub print_warnings : Bool → WarningSet → M (Unit {0})
  print_warnings verbose w = do
    if w.even_central
        then say_log (
            if verbose
            then "[central] Warning: Cluster with even number of members has same fault tolerance, but higher quorum requirements, than cluster with one less member."
            else "[central] Warning: OVN Cluster has even number of members")
        else ret tt
    if w.few_central
        then say_log (
            if verbose
            then "[central] Warning: Cluster with less than 3 nodes can't tolerate any node failures."
            else "[central] Warning: OVN Cluster has critically few members")
        else ret tt

  -- One line for each text, between the two given ones.
  unfoldable pub say_each : String → String → List String → M (Unit {0})
  say_each before after [] = ret tt
  say_each before after (t ∷ ts) = do say (before <> t <> after); say_each before after ts

  unfoldable pub say_errors : List String → M (Unit {0})
  say_errors [] = ret tt
  say_errors (e ∷ es) = do say "\n[Errors]\n"; say_each "" "\n" (e ∷ es)

  -- `RegenerateEnvResponse.PrettyPrint`
  unfoldable pub print_env : RegenerateEnvResponse → M (Unit {0})
  print_env r = do
    say ("New Environment: " <> (if r.success then "Generated" else "Not Generated") <> "\n\n")
    say_errors r.errors

  unfoldable pub say_success : List String → M (Unit {0})
  say_success [] = say "None\n"
  say_success (s ∷ ss) = say_each "" "\n" (s ∷ ss)

  unfoldable pub say_failed : List String → M (Unit {0})
  say_failed [] = ret tt
  say_failed (s ∷ ss) = do say "\nLocal certificates reissue failed:\n"; say_each "" "\n" (s ∷ ss)

  -- `IssueCertificateResponse.PrettyPrint`; of the handlers a list without elements is nil.
  unfoldable pub print_issued : IssueCertificateResponse → M (Unit {0})
  print_issued r = do
    say "Local certificates reissued successfully:\n"
    say_success r.success
    say_failed r.failed

  unfoldable pub say_hosts : List (String × IssueCertificateResponse) → M (Unit {0})
  say_hosts [] = ret tt
  say_hosts ((host, c) ∷ rest) = do
    say ("\n[Host " <> host <> "]\n")
    say_each "" ": Success\n" c.success
    say_each "" ": Failed!\n" c.failed
    say_hosts rest

  abbrev is_empty : List String → Bool
  is_empty [] = true
  is_empty (x ∷ xs) = false

  -- `anyFailure`
  unfoldable pub any_failure : RegenerateCaResponse → Bool
  any_failure r =
      any (λ (h : String × IssueCertificateResponse). not (is_empty h.1.failed))
        r.reissued_certificates
      || not (is_empty r.errors)

  -- `RegenerateCaResponse.PrettyPrint`
  unfoldable pub print_ca : RegenerateCaResponse → M (Unit {0})
  print_ca r = do
    say ("New CA certificate: " <> (if r.new_ca then "Issued" else "Not Issued") <> "\n\n")
    say "Service certificate re-issued for following services:"
    say_hosts r.reissued_certificates
    say_errors r.errors
    if any_failure r
        then say
            "\n Some of the service certificates failed to be re-issued. You can inspect logs and attempt to re-issue these certificates using microovn CLI on affected cluster members.\n"
        else ret tt
