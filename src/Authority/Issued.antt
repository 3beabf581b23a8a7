-- ===== src/Authority/Issued.antt =====
-- The name that an issued certificate carries.
use oes_birger.Prelude.{
  ℕ, String, ◌≡◌, refl, [], ◌∷◌, Option, some, Result, ok, >>=-eq-ok, ap, ◌∙◌, sym,
}
use oes_birger.Authority.{
  Bytes, Certificate, CertificateName, Crypto, Ca, Error, leaf, certificate_of, get_ca_cert,
  bytes_to_64, generate_certificate, get_certificate_name_from_cert,
}

-- The documented behaviour of Go's libraries: a name that is encoded as JSON is decoded again, and a
-- certificate's text, which its owner reads with `decode`, keeps the organizational units of its template.
pub record IsFaithful (lib : Crypto) (decode : String → Option Certificate) : Type 0 where
  pub unmarshal_lem :
      (name : CertificateName) (json : String)
      → lib.marshal name ≡ ok json
      → lib.unmarshal json ≡ ok name
  pub decode_lem :
      (template issuer : Certificate) (key signer : ℕ) (bytes : Bytes) (text : String)
      → lib.create_certificate template issuer key signer ≡ ok bytes
      → bytes_to_64 lib "CERTIFICATE" bytes ≡ ok text
      → (cert : Certificate) × (decode text ≡ some cert)
        × (cert.organizational_unit ≡ template.organizational_unit)

same_certificate :
    {a b c a' b' c' : String} (i j : Result Error (String × String × String))
    → i ≡ ok (a, b, c)
    → j ≡ ok (a', b', c')
    → i ≡ j
    → b ≡ b'
same_certificate i j e f h = cc

module _ (lib : Crypto) (decode : String → Option Certificate)
    (faithful : IsFaithful lib decode) where
  -- The template that is signed holds the name as JSON.
  made_from :
      (c : Ca) (name : CertificateName) (now random : ℕ) {ca64 cert64 key64 : String}
      → generate_certificate lib c name now random ≡ ok (ca64, cert64, key64)
      → (json : String) × (lib.marshal name ≡ ok json)
        × (cert : Certificate) × (decode cert64 ≡ some cert)
        × (cert.organizational_unit ≡ json ∷ [])
  unfolding generate_certificate certificate_of
  made_from c name now random {cert64} e =
      let (json, e₁, f₁) = >>=-eq-ok (lib.marshal name) _ e in
      let (key, e₂, f₂) = >>=-eq-ok (lib.generate_key random) _ f₁ in
      let (issuer_bytes, e₃, f₃) = >>=-eq-ok (leaf c.ca_cert.certificate) _ f₂ in
      let (issuer, e₄, f₄) = >>=-eq-ok (lib.parse_certificate issuer_bytes) _ f₃ in
      let (bytes, e₅, f₅) =
        >>=-eq-ok
          (lib.create_certificate (certificate_of lib name json now) issuer key
            c.ca_cert.private_key)
          _ f₄ in
      let (ca64', e₆, f₆) = >>=-eq-ok (get_ca_cert lib c) _ f₅ in
      let (cert64', e₇, f₇) = >>=-eq-ok (bytes_to_64 lib "CERTIFICATE" bytes) _ f₆ in
      let (key64', e₈, f₈) =
        >>=-eq-ok (bytes_to_64 lib "RSA PRIVATE KEY" (lib.marshal_private_key key)) _ f₇ in
      let same : cert64' ≡ cert64 = same_certificate (ok (ca64', cert64', key64')) _ refl refl f₈ in
      let (cert, read, unit) =
        faithful.decode_lem (certificate_of lib name json now) issuer key c.ca_cert.private_key
          bytes cert64' e₅ e₇ in
      (json, e₁, cert, ap decode (sym same) ∙ read, unit)

  -- Whoever holds an issued certificate's text reads a certificate from it, and the name that it was
  -- issued for is the name in that certificate.
  pub generate_certificate-name :
      (c : Ca) (name : CertificateName) (now random : ℕ) {ca64 cert64 key64 : String}
      → generate_certificate lib c name now random ≡ ok (ca64, cert64, key64)
      → (cert : Certificate) × (decode cert64 ≡ some cert)
        × (get_certificate_name_from_cert lib cert ≡ ok name)
  unfolding get_certificate_name_from_cert
  generate_certificate-name c name now random e =
      let (json, made, cert, read, unit) = made_from c name now random e in
      (
        cert,
        read,
        rw (get_certificate_name_from_cert, unit) (faithful.unmarshal_lem name json made),
      )
