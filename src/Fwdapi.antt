-- ===== src/Fwdapi.antt =====
-- internal/fwdapi: the requests and responses of the control API, and the validation of the requests.
-- A response's nested `interface{}` is a sum of what the source puts there.
use Prim.Native.Char.{Char, code}
use oes_birger.Prelude.{
  ℕ, String, Bool, true, not, ◌&&◌, ◌||◌, leb, Option, none, some, if◌then◌else◌,
}
use oes_birger.Text.{is_empty_text}

abbrev pub kubeconfig_endpoint : String
kubeconfig_endpoint = "/api/v1/generateKubectlComponents"

abbrev pub manifest_endpoint : String
manifest_endpoint = "/api/v1/generateAgentManifestComponents"

abbrev pub service_endpoint : String
service_endpoint = "/api/v1/generateServiceCredentials"

abbrev pub statistics_endpoint : String
statistics_endpoint = "/api/v1/getAgentStatistics"

abbrev pub control_endpoint : String
control_endpoint = "/api/v1/generateControlCredentials"

pub record KubeConfigRequest : Type 0 where
  pub agent_name : String
  pub name : String

pub record KubeConfigResponse : Type 0 where
  pub agent_name : String
  pub name : String
  pub server_url : String
  pub user_certificate : String
  pub user_key : String
  pub ca_cert : String

pub record ManifestRequest : Type 0 where
  pub agent_name : String

pub record ManifestResponse : Type 0 where
  pub agent_name : String
  pub server_hostname : String
  pub server_port : ℕ
  pub agent_certificate : String
  pub agent_version : String
  pub agent_key : String
  pub ca_cert : String

pub record StatisticsResponse (A : Type 0) : Type 0 where
  pub server_time : ℕ
  pub version : String
  pub connected_agents : A

pub record ServiceCredentialRequest : Type 0 where
  pub agent_name : String
  pub type : String
  pub name : String
  pub old_type : String
  pub old_name : String

pub record BasicCredentialResponse : Type 0 where
  pub username : String
  pub password : String

pub record AwsCredentialResponse : Type 0 where
  pub aws_access_key : String
  pub aws_secret_access_key : String

pub data Credential : Type 0 where
  basic : BasicCredentialResponse → Credential
  aws : AwsCredentialResponse → Credential

pub record ServiceCredentialResponse : Type 0 where
  pub agent_name : String
  pub name : String
  pub type : String
  pub username : String
  pub password : String
  pub credential_type : String
  pub credential : Credential
  pub url : String
  pub ca_cert : String

pub record ControlCredentialsRequest : Type 0 where
  pub name : String

pub record ControlCredentialsResponse : Type 0 where
  pub name : String
  pub url : String
  pub certificate : String
  pub key : String
  pub ca_cert : String

unfoldable pub name_present : String → Bool
name_present n = not (is_empty_text n)

unfoldable pub is_type_char : Char → Bool
is_type_char c =
    (leb b'a' (code c) && leb (code c) b'z') || (leb b'0' (code c) && leb (code c) b'9')

unfoldable pub all_type_chars : String → Bool
unfolding is_type_char
all_type_chars String.[] = true
all_type_chars (String.◌∷◌ c s) = is_type_char c && all_type_chars s

-- A match of `^[a-z0-9]+$`.
unfoldable pub type_valid : String → Bool
unfolding all_type_chars
type_valid n = not (is_empty_text n) && all_type_chars n

-- The field that the message says is invalid.
pub data Invalid : Type 0 where
  invalid_agent_name invalid_name invalid_type : Invalid

unfoldable pub validate_service_credential_request : ServiceCredentialRequest → Option Invalid
validate_service_credential_request req =
    if not (name_present req.agent_name)
    then some invalid_agent_name
    else if not (name_present req.name)
    then some invalid_name
    else if not (type_valid req.type)
    then some invalid_type
    else none

unfoldable pub validate_kube_config_request : KubeConfigRequest → Option Invalid
validate_kube_config_request req =
    if not (name_present req.agent_name)
    then some invalid_agent_name
    else if not (name_present req.name)
    then some invalid_name
    else none

unfoldable pub validate_manifest_request : ManifestRequest → Option Invalid
validate_manifest_request req =
    if not (name_present req.agent_name) then some invalid_agent_name else none

unfoldable pub validate_control_credentials_request : ControlCredentialsRequest → Option Invalid
validate_control_credentials_request req =
    if not (name_present req.name) then some invalid_name else none
