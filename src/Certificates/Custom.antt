-- ===== src/Certificates/Custom.antt =====
-- `SetNewCACertificate` of microovn/ovn/certificates/certificates.go: a CA that the user supplies.
use microovn.Prelude.{
  ℕ, ◌/◌, ◌%◌, String, Bool, true, false, not, List, [], ◌∷◌, eqb, ◌≡◌, arith, inl, inr,
  if◌then◌else◌, Bool-cases,
}
use microovn.Effect.{
  Env, Result-cases, Reply-cases, Call, out, ok, World, M, ret, raise, call, issue, on_error,
  errorf, wrapf, ◌>>=◌, ◌>>◌,
}
use microovn.Effect.Keeps.{Keeps, Keeps-bind}
use microovn.Effect.Quiet.{SameDb, same_db, quiet}
use microovn.Config.Map.{option}
use microovn.Certificates.{store_ca}
use microovn.Certificates.Ca.{is_ca, with_ca, store_ca-option}

-- What crypto/tls and crypto/x509 find: the certificates of a pair that tls.X509KeyPair accepts, and of each
-- one that x509.ParseCertificate accepts whether it is a CA and the bits of its key usage.
pub record X509 : Type 0 where
  pub chain : String → List String
  pub is_ca : String → Bool
  pub key_usage : String → ℕ

-- `usage & x509.KeyUsageCertSign == x509.KeyUsageCertSign`, the bit of 32.
abbrev pub can_sign : ℕ → Bool
can_sign usage = eqb (usage / 32 % 2) 1

module _ (env : Env) (x509 : X509) where
  -- The loop over the certificates.
  unfoldable pub check_chain : List String → M (Unit {0})
  check_chain [] = ret tt
  check_chain (der ∷ rest) = do
    cert ←
        on_error (wrapf "error parsing X509 certificate: ")
          (call env (issue "x509.ParseCertificate" (der ∷ [])))
    if not (x509.is_ca cert)
        then raise (errorf "provided certificate is not a CA certificate")
        else if not (can_sign (x509.key_usage cert))
        then raise (errorf "provided certificate does not have the required keyCertSign KeyUsage")
        else check_chain rest

  -- `SetNewCACertificate`
  unfoldable pub set_new_ca_certificate : String → String → M Bool
  set_new_ca_certificate cert key = do
    pair ←
        on_error (wrapf "error parsing CA certificate: ")
          (call env (issue "tls.X509KeyPair" (cert ∷ key ∷ [])))
    check_chain (x509.chain pair)
    store_ca env cert key false

module _ (env : Env) (x509 : X509) where
  -- Each certificate of the chain has been parsed, is a CA, and may sign certificates.
  pub Accepted : List String → Type 0
  Accepted [] = Unit {0}
  Accepted (der ∷ rest) =
      ((cs : List Call) × (cert : String) × (env.respond cs
            (issue "x509.ParseCertificate" (der ∷ []))
          ≡ out cert)
        × (x509.is_ca cert ≡ true)
        × (can_sign (x509.key_usage cert) ≡ true))
      × Accepted rest

  check_chain-Accepted :
      (ders : List String) (w : World) → (check_chain env x509 ders w).0 ≡ ok tt → Accepted ders
  unfolding check_chain Accepted ◌>>=◌ on_error call raise
  check_chain-Accepted [] w h = tt
  check_chain-Accepted (der ∷ ders) w h =
      elim (Reply-cases (env.respond w.calls (issue "x509.ParseCertificate" (der ∷ [])))) [
        | inl (cert, p) ↦
            let v = record w { calls = issue "x509.ParseCertificate" (der ∷ []) ∷ w.calls } in
            elim (Bool-cases (x509.is_ca cert)) [
              | inl ca ↦ elim (Bool-cases (can_sign (x509.key_usage cert))) [
                | inl s ↦ ((w.calls, cert, p, ca, s), check_chain-Accepted ders v (ground arith))
                | inr s ↦ absurd (ground arith)
              ]
              | inr ca ↦ absurd (ground arith)
            ]
        | inr (m, p) ↦ absurd (ground arith)
      ]

  pub check_chain-SameDb : (ders : List String) → Keeps SameDb (check_chain env x509 ders)
  unfolding check_chain
  check_chain-SameDb [] = search quiet
  check_chain-SameDb (der ∷ ders) =
      Keeps-bind same_db _ _ (search quiet) λ cert. search (quiet, check_chain-SameDb ders) depth 8

  -- SetNewCACertificate that succeeds has been given a pair whose certificates all are CAs that may sign,
  -- and then writes the pair, and that it is not to be renewed, and leaves every other option alone.
  pub set_new_ca_certificate-option :
      (cert key : String) (w : World) (b : Bool) (k : String)
      → (set_new_ca_certificate env x509 cert key w).0 ≡ ok b
      → ((pair : String) × (env.respond w.calls (issue "tls.X509KeyPair" (cert ∷ key ∷ []))
            ≡ out pair)
          × Accepted (x509.chain pair))
        × (option (set_new_ca_certificate env x509 cert key w).1 k ≡ with_ca cert key false w k)
        × (b ≡ not (is_ca cert key false w))
  unfolding set_new_ca_certificate ◌>>=◌ on_error call
  set_new_ca_certificate-option cert key w b k h =
      elim (Reply-cases (env.respond w.calls (issue "tls.X509KeyPair" (cert ∷ key ∷ [])))) [
        | inl (pair, p) ↦
            let u = record w { calls = issue "tls.X509KeyPair" (cert ∷ key ∷ []) ∷ w.calls } in
            let v = (check_chain env x509 (x509.chain pair) u).1 in
            let same = (check_chain-SameDb (x509.chain pair)).at u in
            elim (Result-cases (check_chain env x509 (x509.chain pair) u).0) [
              | inl (checked, q) ↦
                  let r : (store_ca env cert key false v).0 ≡ ok b = ground arith in
                  let (o, c) = store_ca-option env cert key false v k r in
                  (
                    (pair, p, check_chain-Accepted (x509.chain pair) u q),
                    ground (arith, o),
                    ground (arith, c),
                  )
              | inr (inl (e, q)) ↦ absurd (ground arith)
              | inr (inr q) ↦ absurd (ground arith)
            ]
        | inr (m, p) ↦ absurd (ground arith)
      ]
