-- ===== src/GetCreds.antt =====
-- app/forwarder-get-creds/main.go: the command that asks the control API for credentials: what it demands
-- of its flags, and the request that it makes. The HTTP client is outside.
pub mod Accepted
use oes_birger.Prelude.{
  ℕ, String, ◌==◌, Bool, true, false, not, ◌&&◌, if◌then◌else◌, eqb, Result, ok, err, panic, ◌>>=◌,
}
use oes_birger.Text.{is_empty_text}
use oes_birger.Fwdapi.{
  KubeConfigRequest, ManifestRequest, ServiceCredentialRequest, ControlCredentialsRequest,
  kubeconfig_endpoint, manifest_endpoint, service_endpoint, statistics_endpoint, control_endpoint,
}

pub record Flags : Type 0 where
  pub url : String
  pub endpoint_name : String
  pub agent_identity : String
  pub endpoint_type : String
  pub action : String

pub data Body : Type 0 where
  kube_config : KubeConfigRequest → Body
  manifest : ManifestRequest → Body
  service_credential : ServiceCredentialRequest → Body
  control_credential : ControlCredentialsRequest → Body
  no_body : Body

pub record ControlRequest : Type 0 where
  pub method : String
  pub url : String
  pub path : String
  pub body : Body

-- The usage is printed with the message, and the process ends; or the request has failed.
pub data Error : Type 0 where
  required : String → Error
  unknown_action : String → Error
  failed : ℕ → Error

-- A flag that is not allowed panics.
unfoldable pub insist : String → String → Bool → Result Error (Unit {0})
unfolding is_empty_text
insist s name expected =
    if expected && is_empty_text s
    then err (required name)
    else if not expected && not (is_empty_text s)
    then panic
    else ok tt

unfoldable pub get_kubeconfig_creds : Flags → ControlRequest
get_kubeconfig_creds f = record {
  method = "POST";
  url = f.url;
  path = kubeconfig_endpoint;
  body = kube_config (record { agent_name = f.agent_identity; name = f.endpoint_name });
}

unfoldable pub get_agent_manifest : Flags → ControlRequest
get_agent_manifest f = record {
  method = "POST";
  url = f.url;
  path = manifest_endpoint;
  body = manifest (record { agent_name = f.agent_identity });
}

unfoldable pub get_service : Flags → ControlRequest
get_service f = record {
  method = "POST";
  url = f.url;
  path = service_endpoint;
  body = service_credential (record {
    agent_name = f.agent_identity;
    type = f.endpoint_type;
    name = f.endpoint_name;
    old_type = "";
    old_name = "";
  });
}

unfoldable pub get_control : Flags → ControlRequest
get_control f = record {
  method = "POST";
  url = f.url;
  path = control_endpoint;
  body = control_credential (record { name = f.endpoint_name });
}

unfoldable pub get_statistics_request : Flags → ControlRequest
get_statistics_request f = record {
  method = "GET";
  url = f.url;
  path = statistics_endpoint;
  body = no_body;
}

-- The three flags, each demanded or forbidden, and then the request.
abbrev pub demand : Flags → Bool → Bool → Bool → ControlRequest → Result Error ControlRequest
demand f agent name type request = do
  agent_ok ← insist f.agent_identity "agent" agent
  name_ok ← insist f.endpoint_name "name" name
  type_ok ← insist f.endpoint_type "type" type
  ok request

-- The switch of `main`.
unfoldable pub request_of : Flags → Result Error ControlRequest
unfolding insist get_kubeconfig_creds get_agent_manifest get_service get_control
    get_statistics_request
request_of f =
    if f.action == "kubectl"
    then demand f true true false (get_kubeconfig_creds f)
    else if f.action == "agent-manifest"
    then demand f true false false (get_agent_manifest f)
    else if f.action == "service"
    then demand f true true true (get_service f)
    else if f.action == "control"
    then demand f false true false (get_control f)
    else if f.action == "statistics"
    then (do
      name_ok ← insist f.endpoint_name "name" false
      type_ok ← insist f.endpoint_type "type" false
      ok (get_statistics_request f))
    else err (unknown_action f.action)

-- The response: its body is printed, if its status is 200.
unfoldable pub print_response : ℕ → String → Result Error String
print_response status body = if not (eqb status 200) then err (failed status) else ok body
