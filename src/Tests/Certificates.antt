-- ===== src/Tests/Certificates.antt =====
-- Libraries that issue one certificate, and the theorems on internal/ca at work.
use oes_birger.Prelude.{
  String, ◌==◌, eq_iff, ◌≡◌, refl, ◌+◌, arith, true, ◌&&◌, List, [], ◌∷◌, Option, none, some,
  Result, ok, err, if◌then◌else◌, ap,
}
use oes_birger.Authority.{Bytes, Certificate, CertificateName, Crypto, Ca, Error, library}
use oes_birger.Authority.Issued.{IsFaithful}

abbrev pub certificate_with : List String → Certificate
certificate_with units = record {
  serial_number = 1;
  common_name = "";
  organization = [];
  organizational_unit = units;
  country = [];
  dns_names = [];
  not_before = 0;
  not_after = 1000;
  is_ca = true;
}

-- The library knows one name, whose JSON is "json".
module _ (known : CertificateName) where
  unfoldable pub marshal : CertificateName → Result Error String
  marshal n =
      if n.name == known.name
        && n.type == known.type
        && n.agent == known.agent
        && n.purpose == known.purpose
      then ok "json"
      else err (library "name")

unfoldable pub sign_units : List String → Result Error Bytes
sign_units (u ∷ []) = if u == "json" then ok (1 ∷ []) else err (library "unit")
sign_units _ = err (library "units")

abbrev pub lib : CertificateName → Crypto
lib known = record {
  marshal = marshal known;
  unmarshal = λ json. ok known;
  generate_key = λ random. ok random;
  parse_certificate = λ bytes. ok (certificate_with []);
  create_certificate = λ template issuer key signer. sign_units template.organizational_unit;
  marshal_private_key = λ key. key ∷ [];
  pem_encode = λ type bytes. ok bytes;
  base64_encode = λ bytes. "base64";
  add_years = λ years now. now + years;
}

abbrev pub decode : String → Option Certificate
decode text = some (certificate_with ("json" ∷ []))

pub unmarshal-marshal :
    (known n : CertificateName) (json : String) → marshal known n ≡ ok json → known ≡ n
unfolding marshal
unmarshal-marshal known n json e = ground (
  arith,
  eq_iff n.name known.name,
  eq_iff n.type known.type,
  eq_iff n.agent known.agent,
  eq_iff n.purpose known.purpose,
)

sign_units-inv :
    (units : List String) (bytes : Bytes) → sign_units units ≡ ok bytes → ("json" ∷ []) ≡ units
unfolding sign_units
sign_units-inv [] bytes e = cc e
sign_units-inv (u ∷ []) bytes e = ground (arith, eq_iff u "json")
sign_units-inv (u ∷ v ∷ units) bytes e = cc e

pub lib-IsFaithful : (known : CertificateName) → IsFaithful (lib known) decode
lib-IsFaithful known = record {
  unmarshal_lem = λ name json e. ap ok (unmarshal-marshal known name json e);
  decode_lem = λ template issuer key signer bytes text e f.
      (certificate_with ("json" ∷ []), refl, sign_units-inv template.organizational_unit bytes e);
}

abbrev pub authority : Ca
authority = record {
  config = none;
  ca_cert = record { certificate = (7 ∷ []) ∷ []; private_key = 3 };
}

abbrev agent_name : CertificateName
agent_name = record { name = ""; type = ""; agent = "agent1"; purpose = "agent" }
