-- ===== src/Tests/Bootstraps.antt =====
-- The command that makes an authority, with a library that tells the authority's certificate from others.
use oes_birger.Prelude.{
  ◌+◌, String, ◌==◌, eq_iff, ◌≡◌, refl, ap, ◌∙◌, sym, false, List, [], ◌∷◌, Option, some, none,
  Result, ok, err, eqb, if◌then◌else◌, Bool-cases, inl, inr,
}
use oes_birger.Text.{is_empty_text}
use oes_birger.Authority.{
  Bytes, Certificate, Crypto, KeyPair, Error, library, make_ca_from_data, to_pem, bytes_to_64,
  generate_certificate,
}
use oes_birger.Authority.Issued.{IsFaithful}
use oes_birger.Authority.Server.{make_certificate_authority, root_template}
use oes_birger.Cnc.{CncServer, Answer, response, authenticate}
use oes_birger.MakeCa.{Flags, Files, oes_name, make_files, check}
use oes_birger.MakeCa.Control.{make_files-authenticate}
use oes_birger.Tests.Tokens.{tokens}
use oes_birger.Tests.Certificates.{certificate_with, marshal, unmarshal-marshal}

unfoldable sign : List String → Result Error Bytes
sign [] = ok (2 ∷ [])
sign (u ∷ []) = if u == "json" then ok (1 ∷ []) else err (library "unit")
sign _ = err (library "units")

abbrev encode : Bytes → String
encode [] = ""
encode (n ∷ bytes) = if eqb n 2 then "root" else "other"

abbrev read : String → Option Certificate
read text = some (certificate_with (if text == "root" then [] else "json" ∷ []))

abbrev lib : Crypto
lib = record {
  marshal = marshal oes_name;
  unmarshal = λ json. ok oes_name;
  generate_key = λ random. ok random;
  parse_certificate = λ bytes. ok (certificate_with []);
  create_certificate = λ template issuer key signer. sign template.organizational_unit;
  marshal_private_key = λ key. key ∷ [];
  pem_encode = λ type bytes. ok bytes;
  base64_encode = encode;
  add_years = λ years now. now + years;
}

bytes-inj : {a b : Bytes} → ◌≡◌ {A = Result Error Bytes} (ok a) (ok b) → a ≡ b
bytes-inj e = cc e

read-sign :
    (units : List String) (bytes : Bytes)
    → sign units ≡ ok bytes
    → read (encode bytes) ≡ some (certificate_with units)
unfolding sign
read-sign [] bytes e = ap (λ b. read (encode b)) (sym (bytes-inj e))
read-sign (u ∷ []) bytes e = elim (Bool-cases (u == "json")) [
  | inl json ↦
      ap (λ b. read (encode b)) (sym (bytes-inj (rw json at e)))
      ∙ ap (λ v. some (certificate_with (v ∷ []))) (sym ((eq_iff u "json").0 json))
  | inr other ↦ cc (rw other at e)
]
read-sign (u ∷ v ∷ units) bytes e = cc e

text_of :
    (bytes : Bytes) (text : String)
    → bytes_to_64 lib "CERTIFICATE" bytes ≡ ok text
    → encode bytes ≡ text
unfolding bytes_to_64 to_pem
text_of bytes text e = cc e

lib-IsFaithful : IsFaithful lib read
lib-IsFaithful = record {
  unmarshal_lem = λ name json e. ap ok (unmarshal-marshal oes_name name json e);
  decode_lem = λ template issuer key signer bytes text e f. (
    certificate_with template.organizational_unit,
    ap read (sym (text_of bytes text f)) ∙ read-sign template.organizational_unit bytes e,
    refl,
  );
}

abbrev server : CncServer
server = record {
  cfg = record {
    agent_hostname = "agents.example.com";
    agent_advertise_port = 9001;
    service_url = "https://services.example.com";
    control_url = "https://control.example.com";
  };
  lib = lib;
  authority = record {
    config = none;
    ca_cert = record { certificate = (2 ∷ []) ∷ []; private_key = 5 };
  };
  tokens = tokens;
  version = "v1";
}

abbrev pair_of : Bytes → Bytes → Result Error KeyPair
pair_of cert key = ok (record { certificate = cert ∷ []; private_key = 5 })

abbrev decoded : String → Result Error Bytes
decoded text = ok (9 ∷ [])

abbrev flags : Flags
flags = record {
  namespace = "";
  ca_secret_name = "ca-secret";
  with_kubernetes = false;
  control_secret_name = "oes-control-secret";
  also_agent_named = "";
}

abbrev files : Files
files = record {
  secrets = none;
  control_cert = 9 ∷ [];
  control_key = 9 ∷ [];
  ca_cert = 2 ∷ [];
  ca_key = 9 ∷ [];
  agent = none;
}

are_made : make_files lib pair_of decoded flags 1 10 11 12 5 6 7 ≡ ok files
unfolding make_files make_certificate_authority root_template make_ca_from_data generate_certificate
    to_pem sign check is_empty_text marshal
are_made = refl

abbrev echo : String → Answer String
echo body = response body

make_files-authenticate_example :
    (text : String) × (decoded text ≡ ok (9 ∷ []))
    × (cert : Certificate) × (read text ≡ some cert)
    × (authenticate server "POST" echo
          (record { method = "POST"; peer_certificates = cert ∷ []; body = "ping" })
        ≡ response "ping")
make_files-authenticate_example =
    make_files-authenticate pair_of decoded flags read server lib-IsFaithful "POST" echo [] "ping" 1
      10 11 12 5 6 7 files are_made
