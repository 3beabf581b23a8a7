-- ===== src/MakeCa.antt =====
-- app/forwarder-make-ca/main.go: the command that makes an authority, and with it the certificate by which
-- the control API is used at first. An error panics there, by `check`. Base64 is decoded by `decode64`,
-- and `x509_key_pair` is `tls.X509KeyPair`.
pub mod Control
use oes_birger.Prelude.{
  ℕ, String, ◌==◌, Bool, not, List, [], ◌∷◌, ◌++◌, Option, none, some, if◌then◌else◌, Result, ok,
  err, panic, ◌>>=◌,
}
use oes_birger.Text.{is_empty_text, concat}
use oes_birger.Authority.{
  Bytes, CertificateName, Crypto, KeyPair, Ca, make_ca_from_data, generate_certificate,
  control_purpose, agent_purpose,
}
use oes_birger.Authority
use oes_birger.Authority.Server.{make_certificate_authority}

pub record Flags : Type 0 where
  pub namespace : String
  pub ca_secret_name : String
  pub with_kubernetes : Bool
  pub control_secret_name : String
  pub also_agent_named : String

-- The only error that does not panic.
pub data Error : Type 0 where
  authority_differs : Error

-- The files that are written; the lines of controller-secrets.yaml, and the agent's certificate and key.
pub record Files : Type 0 where
  pub secrets : Option (List String)
  pub control_cert : Bytes
  pub control_key : Bytes
  pub ca_cert : Bytes
  pub ca_key : Bytes
  pub agent : Option (Bytes × Bytes)

unfoldable pub check {ℓ} : {A : Type ℓ} → Result Authority.Error A → Result Error A
check (ok a) = ok a
check (err e) = panic
check panic = panic

unfoldable pub maybe_namespace : String → List String
unfolding is_empty_text concat
maybe_namespace namespace =
    if not (is_empty_text namespace) then concat ("  namespace: " ∷ namespace ∷ []) ∷ [] else []

unfoldable pub secret_lines : String → String → String → String → List String
unfolding maybe_namespace concat
secret_lines namespace name cert key =
    "apiVersion: v1"
      ∷ "kind: Secret"
      ∷ "type: kubernetes.io/tls"
      ∷ "metadata:"
      ∷ maybe_namespace namespace
    ++ concat ("  name: " ∷ name ∷ [])
      ∷ "data:"
      ∷ concat ("  tls.crt: " ∷ cert ∷ [])
      ∷ concat ("  tls.key: " ∷ key ∷ [])
      ∷ []

unfoldable pub secrets_file : Flags → String → String → String → String → Option (List String)
unfolding secret_lines
secrets_file f ca64 ca_key64 cert64 key64 =
    if f.with_kubernetes
    then some (
        secret_lines f.namespace f.ca_secret_name ca64 ca_key64
        ++ "---" ∷ secret_lines f.namespace f.control_secret_name cert64 key64)
    else none

abbrev pub oes_name : CertificateName
oes_name = record { name = "oes"; type = ""; agent = ""; purpose = control_purpose }

abbrev pub agent_name : String → CertificateName
agent_name agent = record { name = ""; type = ""; agent = agent; purpose = agent_purpose }

module _ (lib : Crypto) (x509_key_pair : Bytes → Bytes → Result Authority.Error KeyPair)
    (decode64 : String → Result Authority.Error Bytes) (f : Flags) where
  unfoldable pub agent_files : Ca → ℕ → ℕ → Result Error (Option (Bytes × Bytes))
  unfolding check is_empty_text generate_certificate
  agent_files authority now random = if is_empty_text f.also_agent_named then ok none else (do
    issued ← check (generate_certificate lib authority (agent_name f.also_agent_named) now random)
    cert ← check (decode64 issued.1)
    key ← check (decode64 issued.2)
    ok (some (cert, key)))

  -- What is written once the control certificate is issued: the authority's certificate, the new one and
  -- its key, as base64.
  unfoldable pub write_files : Ca → Bytes → Bytes → String → String → ℕ → ℕ → Result Error Files
  unfolding check secrets_file agent_files
  write_files authority ca_cert ca_key cert64 key64 now random = do
    cert ← check (decode64 cert64)
    key ← check (decode64 key64)
    ca_key_bytes ← check (decode64 (lib.base64_encode ca_key))
    agent ← agent_files authority now random
    ok (record {
      secrets = secrets_file f (lib.base64_encode ca_cert) (lib.base64_encode ca_key) cert64 key64;
      control_cert = cert;
      control_key = key;
      ca_cert = ca_cert;
      ca_key = ca_key_bytes;
      agent = agent;
    })

  -- The times are those of the four calls that read the clock, the random numbers those of three keys.
  unfoldable pub make_files : ℕ → ℕ → ℕ → ℕ → ℕ → ℕ → ℕ → Result Error Files
  unfolding check make_certificate_authority make_ca_from_data generate_certificate write_files
  make_files made loaded issued later random₁ random₂ random₃ = do
    root ← check (make_certificate_authority lib made random₁)
    authority ← check (make_ca_from_data lib (x509_key_pair root.0 root.1) loaded)
    control ← check (generate_certificate lib authority oes_name issued random₂)
    if not (control.0 == lib.base64_encode root.0)
        then err authority_differs
        else write_files authority root.0 root.1 control.1 control.2 later random₃
