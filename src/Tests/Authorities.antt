-- ===== src/Tests/Authorities.antt =====
-- An authority that is made and loaded, with a library that writes a certificate's period into its bytes.
use oes_birger.Prelude.{
  ℕ, ◌+◌, ◌≡◌, refl, ap, sym, true, false, Bool, [], ◌∷◌, Result, ok, err, arith, eqb,
  if◌then◌else◌,
}
use oes_birger.Authority.{
  Bytes, Certificate, Crypto, KeyPair, Ca, Error, library, make_ca_from_data, to_pem,
}
use oes_birger.Authority.Server.{make_certificate_authority, root_template}
use oes_birger.Authority.SelfSigned.{
  ReadsBack, whole_seconds, make_ca_from_data-make_certificate_authority,
}

abbrev flag : Bool → ℕ
flag b = if b then 1 else 0

abbrev read_certificate : Bytes → Result Error Certificate
read_certificate (from ∷ until ∷ ca ∷ key ∷ []) = ok (record {
  serial_number = 0;
  common_name = "";
  organization = [];
  organizational_unit = [];
  country = [];
  dns_names = [];
  not_before = from;
  not_after = until;
  is_ca = eqb ca 1;
})
read_certificate _ = err (library "certificate")

abbrev written : Certificate → ℕ → Bytes
written template key =
    whole_seconds template.not_before
    ∷ whole_seconds template.not_after
    ∷ flag template.is_ca
    ∷ key
    ∷ []

abbrev pair_of : Bytes → Bytes → Result Error KeyPair
pair_of cert (key ∷ []) = ok (record { certificate = cert ∷ []; private_key = key })
pair_of cert _ = err (library "key")

abbrev lib : Crypto
lib = record {
  marshal = λ name. err (library "name");
  unmarshal = λ json. err (library "name");
  generate_key = λ random. ok random;
  parse_certificate = read_certificate;
  create_certificate = λ template issuer key signer. ok (written template key);
  marshal_private_key = λ key. key ∷ [];
  pem_encode = λ type bytes. ok bytes;
  base64_encode = λ bytes. "base64";
  add_years = λ years now. now + years;
}

eqb-flag : (b : Bool) → eqb (flag b) 1 ≡ b
eqb-flag true = refl
eqb-flag false = refl

bytes-inj : {a b : Bytes} → ◌≡◌ {A = Result Error Bytes} (ok a) (ok b) → a ≡ b
bytes-inj e = cc e

lib-ReadsBack : ReadsBack lib pair_of
lib-ReadsBack = record {
  encodes = λ type bytes. (bytes, refl);
  parses = λ template issuer key signer bytes e. (
    record {
      serial_number = 0;
      common_name = "";
      organization = [];
      organizational_unit = [];
      country = [];
      dns_names = [];
      not_before = whole_seconds template.not_before;
      not_after = whole_seconds template.not_after;
      is_ca = eqb (flag template.is_ca) 1;
    },
    ap read_certificate (sym (bytes-inj e)),
    eqb-flag template.is_ca,
    refl,
    refl,
  );
  pairs = λ template issuer key signer bytes cert_pem key_pem e f g. (
    record { certificate = cert_pem ∷ []; private_key = key },
    ap (pair_of cert_pem) (sym (bytes-inj g)),
    ap (λ c. c ∷ []) (sym (bytes-inj f)),
    refl,
  );
}

abbrev made_at : ℕ
made_at = 20000000000

abbrev root_pem : Bytes
root_pem = 10000000000 ∷ 20000000000 ∷ 1 ∷ 5 ∷ []

is_made : make_certificate_authority lib made_at 5 ≡ ok (root_pem, 5 ∷ [])
unfolding make_certificate_authority root_template to_pem
is_made = refl

make_ca_from_data-make_certificate_authority_example :
    (ca : Ca) × (make_ca_from_data lib (pair_of root_pem (5 ∷ [])) 15000000000 ≡ ok ca)
    × (◌≡◌ {A = Result Error ℕ} (ok 5) (ok ca.ca_cert.private_key))
make_ca_from_data-make_certificate_authority_example =
    make_ca_from_data-make_certificate_authority lib pair_of lib-ReadsBack made_at 15000000000 5
      root_pem (5 ∷ []) is_made (omega arith) (omega arith)
