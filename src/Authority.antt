-- ===== src/Authority.antt =====
-- internal/ca/ca.go: the certificate authority, and the name that its certificates carry. Keys,
-- signatures, JSON, PEM and the parsing of certificates are the work of Go's libraries, the record
-- `Crypto`; random numbers and the time are arguments.
pub mod Issued
pub mod Server
pub mod SelfSigned
pub mod Named
use oes_birger.Prelude.{
  ℕ, ◌+◌, String, ◌≡◌, ◌<◌, ltb, Bool, true, false, not, List, [], ◌∷◌, Option, none, some,
  if◌then◌else◌, Result, ok, err, panic, ◌>>=◌,
}
use oes_birger.Text.{is_empty_text, concat}

abbrev pub Bytes : Type 0
Bytes = List ℕ

-- A template or a certificate, without its key usages; the first three lists are those of the subject.
pub record Certificate : Type 0 where
  pub serial_number : ℕ
  pub common_name : String
  pub organization : List String
  pub organizational_unit : List String
  pub country : List String
  pub dns_names : List String
  pub not_before : ℕ
  pub not_after : ℕ
  pub is_ca : Bool

pub record CertificateName : Type 0 where
  pub name : String
  pub type : String
  pub agent : String
  pub purpose : String

pub data Error : Type 0 where
  library : String → Error
  no_organizational_unit : Error
  not_a_ca : Error
  expired : Error
  not_started : Error

-- A private key is known by a number.
pub record Crypto : Type 0 where
  pub marshal : CertificateName → Result Error String
  pub unmarshal : String → Result Error CertificateName
  pub generate_key : ℕ → Result Error ℕ
  pub parse_certificate : Bytes → Result Error Certificate
  -- the template, the certificate of the authority, the new key and the authority's key
  pub create_certificate : Certificate → Certificate → ℕ → ℕ → Result Error Bytes
  pub marshal_private_key : ℕ → Bytes
  pub pem_encode : String → Bytes → Result Error Bytes
  pub base64_encode : Bytes → String
  pub add_years : ℕ → ℕ → ℕ

pub record Config : Type 0 where
  pub ca_cert_file : String
  pub ca_key_file : String

-- The certificate is a chain, its leaf first.
pub record KeyPair : Type 0 where
  pub certificate : List Bytes
  pub private_key : ℕ

pub record Ca : Type 0 where
  pub config : Option Config
  pub ca_cert : KeyPair

abbrev pub default_tls_certificate_path : String
default_tls_certificate_path = "/app/secrets/ca/tls.crt"

abbrev pub default_tls_key_path : String
default_tls_key_path = "/app/secrets/ca/tls.key"

unfoldable pub apply_defaults : Config → Config
apply_defaults c = record {
  ca_cert_file =
      if is_empty_text c.ca_cert_file then default_tls_certificate_path else c.ca_cert_file;
  ca_key_file = if is_empty_text c.ca_key_file then default_tls_key_path else c.ca_key_file;
}

abbrev pub control_purpose : String
control_purpose = "control"

abbrev pub agent_purpose : String
agent_purpose = "agent"

abbrev pub service_purpose : String
service_purpose = "service"

-- `xs[0]`, which panics on an empty slice.
abbrev pub leaf {ℓ} : {A : Type ℓ} → List A → Result Error A
leaf [] = panic
leaf (x ∷ xs) = ok x

module _ (lib : Crypto) where
  check_period : Certificate → ℕ → Result Error (Unit {0})
  check_period pc now =
      if not pc.is_ca
      then err not_a_ca
      else if ltb pc.not_after now
      then err expired
      else if ltb now pc.not_before
      then err not_started
      else ok tt

  unfoldable pub validate_ca_cert : Bytes → ℕ → Result Error (Unit {0})
  unfolding check_period
  validate_ca_cert bytes now = do pc ← lib.parse_certificate bytes; check_period pc now

  -- `load` is `tls.LoadX509KeyPair`, which reads the two files.
  unfoldable pub load_ca_from_file :
      (String → String → Result Error KeyPair) → Config → ℕ → Result Error Ca
  unfolding validate_ca_cert apply_defaults
  load_ca_from_file load c now = do
    pair ← load (apply_defaults c).ca_cert_file (apply_defaults c).ca_key_file
    bytes ← leaf pair.certificate
    valid ← validate_ca_cert bytes now
    ok (record { config = some (apply_defaults c); ca_cert = pair })

  unfoldable pub make_ca_from_data : Result Error KeyPair → ℕ → Result Error Ca
  unfolding validate_ca_cert
  make_ca_from_data loaded now = do
    pair ← loaded
    bytes ← leaf pair.certificate
    valid ← validate_ca_cert bytes now
    ok (record { config = none; ca_cert = pair })

  -- An error of the encoder is taken for an empty result.
  unfoldable pub to_pem : Bytes → String → Result Error Bytes
  to_pem data_bytes t = elim (lib.pem_encode t data_bytes) [
    | ok bytes ↦ ok bytes
    | err e ↦ ok []
    | panic ↦ panic
  ]

  unfoldable pub bytes_to_64 : String → Bytes → Result Error String
  unfolding to_pem
  bytes_to_64 prefix data_bytes = do p ← to_pem data_bytes prefix; ok (lib.base64_encode p)

  unfoldable pub get_ca_cert : Ca → Result Error String
  unfolding bytes_to_64
  get_ca_cert c = do bytes ← leaf c.ca_cert.certificate; bytes_to_64 "CERTIFICATE" bytes

  unfoldable pub certificate_of : CertificateName → String → ℕ → Certificate
  certificate_of name json now =
      let org_name =
        concat
          ("OpsMx Tunnel Certificate: " ∷ name.agent ∷ "-" ∷ name.name ∷ "-" ∷ name.type ∷ []) in
      record {
        serial_number = now;
        common_name = org_name;
        organization = org_name ∷ [];
        organizational_unit = json ∷ [];
        country = [];
        dns_names = [];
        not_before = now;
        not_after = lib.add_years 1 now;
        is_ca = false;
      }

  -- The authority's certificate, the new one and its key, in this order.
  unfoldable pub generate_certificate :
      Ca → CertificateName → ℕ → ℕ → Result Error (String × String × String)
  unfolding certificate_of get_ca_cert bytes_to_64
  generate_certificate c name now random = do
    json ← lib.marshal name
    key ← lib.generate_key random
    issuer_bytes ← leaf c.ca_cert.certificate
    issuer ← lib.parse_certificate issuer_bytes
    bytes ← lib.create_certificate (certificate_of name json now) issuer key c.ca_cert.private_key
    ca64 ← get_ca_cert c
    cert64 ← bytes_to_64 "CERTIFICATE" bytes
    key64 ← bytes_to_64 "RSA PRIVATE KEY" (lib.marshal_private_key key)
    ok (ca64, cert64, key64)

  unfoldable pub get_certificate_name_from_cert : Certificate → Result Error CertificateName
  get_certificate_name_from_cert cert = elim cert.organizational_unit [
    | [] ↦ err no_organizational_unit
    | ou ∷ more ↦ lib.unmarshal ou
  ]
