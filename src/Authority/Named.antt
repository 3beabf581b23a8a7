-- ===== src/Authority/Named.antt =====
-- The names in a server's certificate.
use oes_birger.Prelude.{ℕ, String, ◌≡◌, ap, ◌∙◌, sym, List, [], ◌∷◌, Result, ok, >>=-eq-ok}
use oes_birger.Authority.{Bytes, Certificate, Crypto, KeyPair, Ca, Error, leaf, to_pem}
use oes_birger.Authority.Server.{server_template, make_server_cert}
use oes_birger.Authority.SelfSigned.{ReadsBack, to_pem_lem}

-- The documented behaviour of crypto/x509: a certificate is parsed with the DNS names of its template.
pub record KeepsNames (lib : Crypto) : Type 0 where
  pub keeps :
      (template issuer : Certificate) (key signer : ℕ) (bytes : Bytes)
      → lib.create_certificate template issuer key signer ≡ ok bytes
      → (cert : Certificate) × (lib.parse_certificate bytes ≡ ok cert)
        × (cert.dns_names ≡ template.dns_names)

-- A server's key pair has one certificate, which is for the names.
pub record IsFor (lib : Crypto) (names : List String) (pair : KeyPair) : Type 0 where
  pub bytes : Bytes
  pub cert : Certificate
  pub chain : pair.certificate ≡ bytes ∷ []
  pub parsed : lib.parse_certificate bytes ≡ ok cert
  pub named : cert.dns_names ≡ names

ok-inj : {E A : Type 0} {a b : A} → ◌≡◌ {A = Result E A} (ok a) (ok b) → a ≡ b
ok-inj e = cc e

pub make_server_cert-IsFor :
    (lib : Crypto) (x509_key_pair : Bytes → Bytes → Result Error KeyPair) (ca : Ca)
    (names : List String) (now random : ℕ) (pair : KeyPair)
    → ReadsBack lib x509_key_pair
    → KeepsNames lib
    → make_server_cert lib x509_key_pair ca names now random ≡ ok pair
    → IsFor lib names pair
unfolding make_server_cert server_template
make_server_cert-IsFor lib x509_key_pair ca names now random pair reads keeps e =
    let (issuer_bytes, _, e₁) = >>=-eq-ok (leaf ca.ca_cert.certificate) _ e in
    let (issuer, _, e₂) = >>=-eq-ok (lib.parse_certificate issuer_bytes) _ e₁ in
    let (key, _, e₃) = >>=-eq-ok (lib.generate_key random) _ e₂ in
    let template = server_template lib names now in
    let (bytes, made, e₄) =
      >>=-eq-ok (lib.create_certificate template issuer key ca.ca_cert.private_key) _ e₃ in
    let (cert_pem, f, e₅) = >>=-eq-ok (to_pem lib bytes "CERTIFICATE") _ e₄ in
    let (key_pem, g, e₆) =
      >>=-eq-ok (to_pem lib (lib.marshal_private_key key) "RSA PRIVATE KEY") _ e₅ in
    let (cert, parsed, named) = keeps.keeps template issuer key ca.ca_cert.private_key bytes made in
    let (made_pair, paired, chain, _) =
      reads.pairs template issuer key ca.ca_cert.private_key bytes cert_pem key_pem made
        (to_pem_lem lib x509_key_pair reads bytes "CERTIFICATE" cert_pem f)
        (to_pem_lem lib x509_key_pair reads (lib.marshal_private_key key) "RSA PRIVATE KEY" key_pem
          g) in
    let same : made_pair ≡ pair = ok-inj (sym paired ∙ e₆) in
    record {
      bytes = bytes;
      cert = cert;
      chain = ap (λ p. p.certificate) (sym same) ∙ chain;
      parsed = parsed;
      named = named;
    }
