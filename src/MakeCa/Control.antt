-- ===== src/MakeCa/Control.antt =====
-- The control certificate that the command makes, at the control API.
use oes_birger.Prelude.{
  ℕ, String, ◌==◌, ◌≡◌, refl, ap, ◌∙◌, eq_refl, List, ◌∷◌, Option, some, Result, ok, err, panic,
  >>=-eq-ok, Bool-cases, inl, inr,
}
use oes_birger.Authority.{
  Bytes, Certificate, CertificateName, Crypto, KeyPair, Ca, get_certificate_name_from_cert,
  make_ca_from_data, generate_certificate,
}
use oes_birger.Authority
use oes_birger.Authority.Issued.{IsFaithful, generate_certificate-name}
use oes_birger.Authority.Server.{make_certificate_authority}
use oes_birger.Cnc.{CncServer, Answer, authenticate, check_client, check_name}
use oes_birger.MakeCa.{Flags, Files, Error, check, oes_name, agent_files, write_files, make_files}

check-eq-ok : {A : Type 0} (r : Result Authority.Error A) (a : A) → check r ≡ ok a → r ≡ ok a
unfolding check
check-eq-ok (ok x) a e = cc e
check-eq-ok (err x) a e = cc e
check-eq-ok panic a e = cc e

ok-inj : {A : Type 0} {a b : A} → ◌≡◌ {A = Result Error A} (ok a) (ok b) → a ≡ b
ok-inj e = cc e

-- A client whose first certificate has the name of the control certificate reaches every handler.
authenticate-oes :
    {A B : Type 0} (s : CncServer) (method : String) (h : A → Answer B) (cert : Certificate)
    (more : List Certificate) (body : A)
    → get_certificate_name_from_cert s.lib cert ≡ ok oes_name
    → authenticate s method h
        (record { method = method; peer_certificates = cert ∷ more; body = body })
      ≡ h body
unfolding authenticate check_client check_name
authenticate-oes s method h cert more body e = rw (eq_refl method) (rw e refl)

module _ (x509_key_pair : Bytes → Bytes → Result Authority.Error KeyPair)
    (decode64 : String → Result Authority.Error Bytes) (f : Flags)
    (decode : String → Option Certificate) (s : CncServer)
    (faithful : IsFaithful s.lib decode) where
  write_files-control :
      (authority : Ca) (ca_cert ca_key : Bytes) (cert64 key64 : String) (now random : ℕ)
      (files : Files)
      → write_files s.lib x509_key_pair decode64 f authority ca_cert ca_key cert64 key64 now random
        ≡ ok files
      → decode64 cert64 ≡ ok files.control_cert
  unfolding write_files
  write_files-control authority ca_cert ca_key cert64 key64 now random files e =
      let (cert, is_cert, e₁) = >>=-eq-ok (check (decode64 cert64)) _ e in
      let (key, _, e₂) = >>=-eq-ok (check (decode64 key64)) _ e₁ in
      let (ca, _, e₃) = >>=-eq-ok (check (decode64 (s.lib.base64_encode ca_key))) _ e₂ in
      let (agent, _, e₄) =
        >>=-eq-ok (agent_files s.lib x509_key_pair decode64 f authority now random) _ e₃ in
      check-eq-ok (decode64 cert64) cert is_cert ∙ ap ok (ap (λ x. x.control_cert) (ok-inj e₄))

  -- Where the command that makes an authority goes through, a certificate is read from the text of
  -- control-cert.pem, and a client that presents it first reaches what the handler of any path of the
  -- control API does with its body, if the libraries are faithful.
  pub make_files-authenticate :
      {A B : Type 0} (method : String) (h : A → Answer B) (more : List Certificate) (body : A)
      (made loaded issued later random₁ random₂ random₃ : ℕ) (files : Files)
      → make_files s.lib x509_key_pair decode64 f made loaded issued later random₁ random₂ random₃
        ≡ ok files
      → (text : String) × (decode64 text ≡ ok files.control_cert)
        × (cert : Certificate) × (decode text ≡ some cert)
        × (authenticate s method h
              (record { method = method; peer_certificates = cert ∷ more; body = body })
            ≡ h body)
  unfolding make_files
  make_files-authenticate method h more body made loaded issued later random₁ random₂ random₃ files
        e =
      let (root, _, e₁) = >>=-eq-ok (check (make_certificate_authority s.lib made random₁)) _ e in
      let (authority, _, e₂) =
        >>=-eq-ok (check (make_ca_from_data s.lib (x509_key_pair root.0 root.1) loaded)) _ e₁ in
      let (control, is_control, e₃) =
        >>=-eq-ok (check (generate_certificate s.lib authority oes_name issued random₂)) _ e₂ in
      let generated =
        check-eq-ok (generate_certificate s.lib authority oes_name issued random₂) control
          is_control in
      let (cert, read, named) =
        generate_certificate-name s.lib decode faithful authority oes_name issued random₂
          generated in
      let wrote : decode64 control.1 ≡ ok files.control_cert =
        elim (Bool-cases (control.0 == s.lib.base64_encode root.0)) [
          | inl same ↦
              write_files-control authority root.0 root.1 control.1 control.2 later random₃ files
                (rw same at e₃)
          | inr differs ↦ cc (rw differs at e₃)
        ] in
      (control.1, wrote, cert, read, authenticate-oes s method h cert more body named)
