-- ===== src/Cnc/Access.antt =====
-- Who may use the control API.
use oes_birger.Prelude.{
  String, ◌==◌, eq_iff, ◌≡◌, refl, List, [], ◌∷◌, Result, ok, err, panic, Bool-cases, inl, inr,
}
use oes_birger.Authority.{
  Error, Certificate, CertificateName, get_certificate_name_from_cert, control_purpose,
}
use oes_birger.Cnc.{CncServer, Answer, Request, response, authenticate, check_client, check_name}

-- A certificate whose name has the purpose control.
pub record IsAuthorized (s : CncServer) (certs : List Certificate) : Type 0 where
  pub cert : Certificate
  pub more : List Certificate
  pub first : certs ≡ cert ∷ more
  pub names : CertificateName
  pub named : get_certificate_name_from_cert s.lib cert ≡ ok names
  pub purpose : names.purpose ≡ control_purpose

module _ {B : Type 0} where
  check_name-eq-response :
      (found : Result Error CertificateName) (answer : Answer B) (b : B)
      → check_name found answer ≡ response b
      → (names : CertificateName) × (found ≡ ok names)
        × (names.purpose ≡ control_purpose)
        × (answer ≡ response b)
  unfolding check_name
  check_name-eq-response (err x) answer b e = cc e
  check_name-eq-response panic answer b e = cc e
  check_name-eq-response (ok names) answer b e =
      elim (Bool-cases (names.purpose == control_purpose)) [
        | inl same ↦ (names, refl, (eq_iff names.purpose control_purpose).0 same, rw same at e)
        | inr other ↦ cc (rw other at e)
      ]

  check_client-eq-response :
      (s : CncServer) (certs : List Certificate) (answer : Answer B) (b : B)
      → check_client s certs answer ≡ response b
      → IsAuthorized s certs × (answer ≡ response b)
  unfolding check_client
  check_client-eq-response s [] answer b e = cc e
  check_client-eq-response s (cert ∷ more) answer b e =
      let (names, named, purpose, e₁) =
        check_name-eq-response (get_certificate_name_from_cert s.lib cert) answer b e in
      (
        record {
          cert = cert;
          more = more;
          first = refl;
          names = names;
          named = named;
          purpose = purpose;
        },
        e₁,
      )

  -- A handler's response reaches only a client whose request has the handler's method, and whose first
  -- certificate names the purpose control; then it is what the handler itself gives for the body.
  pub authenticate-eq-response :
      {A : Type 0} (s : CncServer) (method : String) (h : A → Answer B) (r : Request A) (b : B)
      → authenticate s method h r ≡ response b
      → (r.method ≡ method) × IsAuthorized s r.peer_certificates × (h r.body ≡ response b)
  unfolding authenticate
  authenticate-eq-response s method h r b e = elim (Bool-cases (r.method == method)) [
    | inl same ↦
        let (client, e₁) =
          check_client-eq-response s r.peer_certificates (h r.body) b (rw same at e) in
        ((eq_iff r.method method).0 same, client, e₁)
    | inr other ↦ cc (rw other at e)
  ]
