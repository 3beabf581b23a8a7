-- ===== src/Config/Agent.antt =====
-- app/forwarder-agent/config.go and the start of main.go: the agent's configuration, the certificate of
-- the controller's authority, and the dialling of the controller.
pub mod Dial
use oes_birger.Prelude.{
  ℕ, String, Bool, List, [], ◌∷◌, Option, none, some, if◌then◌else◌, Result, ok, err, panic, ◌>>=◌,
  ℤ, pos, negsuc, is_zero,
}
use oes_birger.Text.{is_empty_text}
use oes_birger.Tunnel.AgentInfo.{AgentInfo}
use oes_birger.Authority.{Bytes}
use oes_birger.Authority

pub record AgentConfig : Type 0 where
  pub controller_hostname : String
  pub ca_cert64 : Option String
  pub cert_file : String
  pub key_file : String
  pub services_config_path : String
  pub insecure_controller_allowed : Bool
  pub dial_max_retries : ℤ
  pub dial_retry_time : ℤ

abbrev or_default : String → String → String
or_default default text = if is_empty_text text then default else text

abbrev or_ten : ℤ → ℤ
or_ten n = if is_zero n then pos 10 else n

unfoldable pub agent_defaults : AgentConfig → AgentConfig
agent_defaults c = record c {
  controller_hostname = or_default "forwarder-controller:9001" c.controller_hostname;
  cert_file = or_default "/app/secrets/agent/tls.crt" c.cert_file;
  key_file = or_default "/app/secrets/agent/tls.key" c.key_file;
  services_config_path = or_default "/app/config/services.yaml" c.services_config_path;
  dial_max_retries = or_ten c.dial_max_retries;
  dial_retry_time = or_ten c.dial_retry_time;
}

pub data Error : Type 0 where
  no_ca_certificate : Error
  bad_ca_encoding : Error
  no_pem : Error
  bad_ca : Authority.Error → Error
  not_connected : Error
  library : String → Error

unfoldable pub load_agent_config {ℓ} :
    {B : Type ℓ} → (B → Result Error AgentConfig) → Result Error B → Result Error AgentConfig
unfolding agent_defaults
load_agent_config unmarshal contents = do buf ← contents; c ← unmarshal buf; ok (agent_defaults c)

-- The agentInfo block of the services file; `unmarshal` gives the container's one field.
unfoldable pub load_agent_info {ℓ} :
    {B : Type ℓ} → (B → Result Error AgentInfo) → Result Error B → Result Error AgentInfo
load_agent_info unmarshal contents = do buf ← contents; unmarshal buf

-- The file comes first, then the text in the configuration. A `Fatal` is an `err`.
unfoldable pub load_ca_cert_pem :
    Result Error Bytes → (String → Result Error Bytes) → AgentConfig → Result Error Bytes
load_ca_cert_pem (ok cert) decode config = ok cert
load_ca_cert_pem panic decode config = panic
load_ca_cert_pem (err e) decode config = elim config.ca_cert64 [
  | none ↦ err no_ca_certificate
  | some text ↦ elim (decode text) [
    | ok cert ↦ ok cert
    | err x ↦ err bad_ca_encoding
    | panic ↦ panic
  ]
]

abbrev pub checked : Bytes → Result Authority.Error (Unit {0}) → Result Error Bytes
checked pem (ok valid) = ok pem
checked pem (err e) = err (bad_ca e)
checked pem panic = panic

unfoldable pub load_ca_cert :
    Authority.Crypto
    → (Bytes → Option Bytes)
    → ℕ
    → Result Error Bytes
    → (String → Result Error Bytes)
    → AgentConfig
    → Result Error Bytes
unfolding load_ca_cert_pem
load_ca_cert lib pem_decode now file decode config = do
  pem ← load_ca_cert_pem file decode config
  elim (pem_decode pem) [
    | none ↦ err no_pem
    | some block ↦ checked pem (Authority.validate_ca_cert lib block now)
  ]
