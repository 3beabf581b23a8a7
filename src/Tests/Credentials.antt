-- ===== src/Tests/Credentials.antt =====
-- Credentials of the control API at work.
use oes_birger.Prelude.{lookup, ℕ, String, ◌≡◌, refl, arith, [], ◌∷◌, Option, some, ok}
use oes_birger.Text.{is_empty_text, concat, canonical_key, split_at_space}
use oes_birger.Jwt.{make_jwt}
use oes_birger.Authority.{
  Certificate, CertificateName, generate_certificate, get_ca_cert, get_certificate_name_from_cert,
}
use oes_birger.Fwdapi.{
  name_present, type_valid, KubeConfigRequest, KubeConfigResponse, ServiceCredentialRequest,
  ServiceCredentialResponse, basic, ControlCredentialsResponse, validate_kube_config_request,
  validate_service_credential_request, validate_control_credentials_request,
}
use oes_birger.Service.Credentials.{
  extract_endpoint, header_get, bearer_token, header_del, token_header,
}
use oes_birger.Tunnel.Headers.{Header}
use oes_birger.Cnc.{
  CncServer, Answer, Request, response, failed, authenticate, generate_kubectl_components,
  generate_service_credentials, generate_control_credentials, issue_kubectl_components,
  issue_service_credentials, issue_control_credentials, credential_response, upgrade,
}
use oes_birger.Cnc.Access.{IsAuthorized, authenticate-eq-response}
use oes_birger.Cnc.Credentials.{
  extract_endpoint-generate_service_credentials, extract_endpoint-generate_kubectl_components,
  authenticate-generate_control_credentials,
}
use oes_birger.Tests.Tokens.{tokens, tokens-IsSound, sign}
use oes_birger.Tests.Certificates.{
  lib, lib-IsFaithful, decode, authority, marshal, sign_units, certificate_with,
}

abbrev server : CertificateName → CncServer
server known = record {
  cfg = record {
    agent_hostname = "agents.example.com";
    agent_advertise_port = 9001;
    service_url = "https://services.example.com";
    control_url = "https://control.example.com";
  };
  lib = lib known;
  authority = authority;
  tokens = tokens;
  version = "v1";
}

abbrev kubectl_identity : CertificateName
kubectl_identity = record {
  name = "cluster";
  type = "kubernetes";
  agent = "agent1";
  purpose = "service";
}

abbrev control_identity : CertificateName
control_identity = record { name = "ops"; type = ""; agent = ""; purpose = "agent" }

abbrev operator_identity : CertificateName
operator_identity = record { name = "ops"; type = ""; agent = ""; purpose = "control" }

abbrev basic_auth : String → Option (String × String)
basic_auth auth = some ("ci.agent1", "service-token")

abbrev login : Header
login = ("Authorization", "Basic Y2k=" ∷ []) ∷ ("Accept", "*/*" ∷ []) ∷ []

-- The type and name are in the old fields, as an old client sends them.
abbrev old_request : ServiceCredentialRequest
old_request = record {
  agent_name = "agent1";
  type = "";
  name = "";
  old_type = "jenkins";
  old_name = "ci";
}

abbrev service_response : ServiceCredentialResponse
service_response = record {
  agent_name = "agent1";
  name = "ci";
  type = "jenkins";
  username = "ci.agent1";
  password = "service-token";
  credential_type = "basic";
  credential = basic (record { username = "ci.agent1"; password = "service-token" });
  url = "https://services.example.com";
  ca_cert = "base64";
}

extract_endpoint-generate_service_credentials_example :
    extract_endpoint basic_auth (lib kubectl_identity) tokens 50 [] login ≡ (
      ok (record { agent_identity = "agent1"; endpoint_type = "jenkins"; endpoint_name = "ci" }),
      header_del token_header login,
    )
unfolding generate_service_credentials validate_service_credential_request issue_service_credentials
    upgrade make_jwt sign get_ca_cert credential_response concat header_get bearer_token
    is_empty_text name_present type_valid lookup canonical_key split_at_space
extract_endpoint-generate_service_credentials_example =
    extract_endpoint-generate_service_credentials (server kubectl_identity) 10 5 basic_auth
      (some old_request) service_response login "ci.agent1" 50 tokens-IsSound refl refl refl refl
      (omega arith) (omega arith)

abbrev kubectl_request : KubeConfigRequest
kubectl_request = record { agent_name = "agent1"; name = "cluster" }

abbrev kubectl_response : KubeConfigResponse
kubectl_response = record {
  agent_name = "agent1";
  name = "cluster";
  server_url = "https://services.example.com";
  user_certificate = "base64";
  user_key = "base64";
  ca_cert = "base64";
}

extract_endpoint-generate_kubectl_components_example :
    (cert : Certificate) × (decode "base64" ≡ some cert)
    × (extract_endpoint basic_auth (lib kubectl_identity) tokens 50 (cert ∷ []) login ≡ (
      ok (record {
        agent_identity = "agent1";
        endpoint_type = "kubernetes";
        endpoint_name = "cluster";
      }),
      login,
    ))
unfolding generate_kubectl_components validate_kube_config_request issue_kubectl_components
    generate_certificate marshal sign_units is_empty_text name_present
extract_endpoint-generate_kubectl_components_example =
    extract_endpoint-generate_kubectl_components (server kubectl_identity) 10 5 decode
      (lib-IsFaithful kubectl_identity) basic_auth (some kubectl_request) kubectl_response login 50
      refl

abbrev control_response : ControlCredentialsResponse
control_response = record {
  name = "ops";
  url = "https://control.example.com";
  certificate = "base64";
  key = "base64";
  ca_cert = "base64";
}

abbrev answer_ok : ℕ → Answer ℕ
answer_ok n = response n

authenticate-generate_control_credentials_example :
    (cert : Certificate) × (decode "base64" ≡ some cert)
    × (authenticate
          (server control_identity)
          "GET"
          answer_ok
          (record { method = "GET"; peer_certificates = cert ∷ []; body = 1 })
        ≡ failed 403)
unfolding generate_control_credentials validate_control_credentials_request
    issue_control_credentials generate_certificate marshal sign_units is_empty_text name_present
authenticate-generate_control_credentials_example =
    authenticate-generate_control_credentials (server control_identity) 10 5 decode
      (lib-IsFaithful control_identity) (some (record { name = "ops" })) control_response "GET"
      answer_ok 1 refl

abbrev operator_request : Request ℕ
operator_request = record {
  method = "GET";
  peer_certificates = certificate_with ("json" ∷ []) ∷ [];
  body = 4;
}

authenticate-eq-response_example :
    (operator_request.method ≡ "GET")
    × IsAuthorized (server operator_identity) operator_request.peer_certificates
    × (answer_ok operator_request.body ≡ response 4)
unfolding authenticate get_certificate_name_from_cert
authenticate-eq-response_example =
    authenticate-eq-response (server operator_identity) "GET" answer_ok operator_request 4 refl
