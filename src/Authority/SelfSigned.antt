-- ===== src/Authority/SelfSigned.antt =====
-- An authority that was just made is one that is accepted when it is loaded.
use oes_birger.Prelude.{
  ℕ, ◌≤◌, ◌-◌, ◌%◌, String, ◌≡◌, refl, ap, ◌∙◌, sym, true, [], ◌∷◌, Result, ok, none, >>=-eq-ok,
  arith,
}
use oes_birger.Authority.{
  Bytes, Certificate, Crypto, KeyPair, Ca, Error, check_period, validate_ca_cert, make_ca_from_data,
  to_pem,
}
use oes_birger.Authority.Server.{ten_seconds_before, root_template, make_certificate_authority}

-- A certificate has no fractions of a second: of a time in nanoseconds they are cut off.
abbrev pub whole_seconds : ℕ → ℕ
whole_seconds nanos = nanos - nanos % 1000000000

whole_seconds-le : (nanos : ℕ) → whole_seconds nanos ≤ nanos
whole_seconds-le nanos = omega arith

-- The documented behaviour of Go's libraries: PEM can always be written, a certificate that was made is
-- parsed with the mark of its template and its period in whole seconds, and a key pair is read from the PEM of it and of
-- the key that it was made for.
pub record ReadsBack (lib : Crypto) (x509_key_pair : Bytes → Bytes → Result Error KeyPair)
    : Type 0 where
  pub encodes :
      (type : String) (bytes : Bytes) → (pem : Bytes) × (lib.pem_encode type bytes ≡ ok pem)
  pub parses :
      (template issuer : Certificate) (key signer : ℕ) (bytes : Bytes)
      → lib.create_certificate template issuer key signer ≡ ok bytes
      → (cert : Certificate) × (lib.parse_certificate bytes ≡ ok cert)
        × (cert.is_ca ≡ template.is_ca)
        × (cert.not_before ≡ whole_seconds template.not_before)
        × (cert.not_after ≡ whole_seconds template.not_after)
  pub pairs :
      (template issuer : Certificate) (key signer : ℕ) (bytes cert_pem key_pem : Bytes)
      → lib.create_certificate template issuer key signer ≡ ok bytes
      → lib.pem_encode "CERTIFICATE" bytes ≡ ok cert_pem
      → lib.pem_encode "RSA PRIVATE KEY" (lib.marshal_private_key key) ≡ ok key_pem
      → (pair : KeyPair) × (x509_key_pair cert_pem key_pem ≡ ok pair)
        × (pair.certificate ≡ bytes ∷ [])
        × (pair.private_key ≡ key)

check_period_lem :
    (lib : Crypto) (cert : Certificate) (now : ℕ)
    → cert.is_ca ≡ true
    → cert.not_before ≤ now
    → now ≤ cert.not_after
    → check_period lib cert now ≡ ok tt
unfolding check_period
check_period_lem lib cert now c b a = ground arith

ok-inj : {A : Type 0} {a b : A} → ◌≡◌ {A = Result Error A} (ok a) (ok b) → a ≡ b
ok-inj e = cc e

same_key :
    (ca : Ca) (pair : KeyPair) (key : ℕ)
    → ca.ca_cert ≡ pair
    → pair.private_key ≡ key
    → ◌≡◌ {A = Result Error ℕ} (ok key) (ok ca.ca_cert.private_key)
same_key ca pair key e f = cc (ap (λ p. p.private_key) e, f)

module _ (lib : Crypto) (x509_key_pair : Bytes → Bytes → Result Error KeyPair)
    (reads : ReadsBack lib x509_key_pair) where
  pub to_pem_lem :
      (bytes : Bytes) (type : String) (pem : Bytes)
      → to_pem lib bytes type ≡ ok pem
      → lib.pem_encode type bytes ≡ ok pem
  unfolding to_pem
  to_pem_lem bytes type pem e =
      let (text, encoded) = reads.encodes type bytes in encoded ∙ rw (encoded, to_pem) at e

  make_ca_from_data_lem :
      (pair : KeyPair) (bytes : Bytes) (cert : Certificate) (loaded : Result Error KeyPair)
      (now : ℕ)
      → loaded ≡ ok pair
      → pair.certificate ≡ bytes ∷ []
      → lib.parse_certificate bytes ≡ ok cert
      → check_period lib cert now ≡ ok tt
      → (ca : Ca) × (make_ca_from_data lib loaded now ≡ ok ca) × (ca.ca_cert ≡ pair)
  unfolding make_ca_from_data validate_ca_cert
  make_ca_from_data_lem pair bytes cert loaded now l chain parsed valid =
      (record { config = none; ca_cert = pair }, rw (l, chain) (rw (parsed, valid) refl), refl)

  -- If Go's libraries read back what they write, then an authority that was made at one time, and is loaded
  -- from its two texts at any time from ten seconds before that to the last whole second of the ten years
  -- behind it, is accepted, and the key that it signs with is the key that was generated for it.
  pub make_ca_from_data-make_certificate_authority :
      (made loaded random : ℕ) (cert_pem key_pem : Bytes)
      → make_certificate_authority lib made random ≡ ok (cert_pem, key_pem)
      → ten_seconds_before made ≤ loaded
      → loaded ≤ whole_seconds (lib.add_years 10 made)
      → (ca : Ca) × (make_ca_from_data lib (x509_key_pair cert_pem key_pem) loaded ≡ ok ca)
        × (lib.generate_key random ≡ ok ca.ca_cert.private_key)
  unfolding make_certificate_authority root_template
  make_ca_from_data-make_certificate_authority made loaded random cert_pem key_pem e from until =
      let root = root_template lib made in
      let (priv, generated, e₁) = >>=-eq-ok (lib.generate_key random) _ e in
      let (bytes, created, e₂) = >>=-eq-ok (lib.create_certificate root root priv priv) _ e₁ in
      let (c, is_c, e₃) = >>=-eq-ok (to_pem lib bytes "CERTIFICATE") _ e₂ in
      let (k, is_k, e₄) =
        >>=-eq-ok (to_pem lib (lib.marshal_private_key priv) "RSA PRIVATE KEY") _ e₃ in
      let same = ok-inj e₄ in
      let (cert, parsed, is_ca, before, after) = reads.parses root root priv priv bytes created in
      let (pair, read, chain, key) =
        reads.pairs root root priv priv bytes c k created (to_pem_lem bytes "CERTIFICATE" c is_c)
          (to_pem_lem (lib.marshal_private_key priv) "RSA PRIVATE KEY" k is_k) in
      let (ca, accepted, is_pair) =
        make_ca_from_data_lem pair bytes cert (x509_key_pair cert_pem key_pem) loaded
          (ap (λ t. x509_key_pair t.0 t.1) (sym same) ∙ read) chain parsed
          (check_period_lem lib cert loaded is_ca
            (rw before (omega (arith, whole_seconds-le (ten_seconds_before made), from)))
            (rw after until)) in
      (ca, accepted, generated ∙ same_key ca pair priv is_pair key)
