-- ===== src/Cnc.antt =====
-- app/forwarder-controller/cncserver/cnc-server.go: the control API. A handler's outcome is the answer
-- that it writes: a response, or a failed request with its status. JSON is outside: the decoded body
-- of a request is an argument (`none` where it does not decode), and so is the verdict on the response.
pub mod Paths
pub mod Access
pub mod Credentials
use oes_birger.Prelude.{
  ℕ, String, ◌==◌, Bool, true, false, not, List, [], ◌∷◌, Option, none, some, if◌then◌else◌, Result,
  ok, err, panic,
}
use oes_birger.Text.{is_empty_text, concat}
use oes_birger.Jwt.{Registry, make_jwt}
use oes_birger.Jwt
use oes_birger.Authority.{
  Certificate, CertificateName, Crypto, Ca, generate_certificate, get_ca_cert,
  get_certificate_name_from_cert, control_purpose, agent_purpose, service_purpose,
}
use oes_birger.Authority
use oes_birger.Fwdapi.{
  KubeConfigRequest, KubeConfigResponse, ManifestRequest, ManifestResponse, StatisticsResponse,
  ServiceCredentialRequest, ServiceCredentialResponse, Credential, basic, aws,
  ControlCredentialsRequest, ControlCredentialsResponse, Invalid, validate_kube_config_request,
  validate_manifest_request, validate_service_credential_request,
  validate_control_credentials_request,
}

pub record Config : Type 0 where
  pub agent_hostname : String
  pub agent_advertise_port : ℕ
  pub service_url : String
  pub control_url : String

-- `authority` with the library that it calls, and the registry of the service tokens.
pub record CncServer : Type 0 where
  pub cfg : Config
  pub lib : Crypto
  pub authority : Ca
  pub tokens : Registry
  pub version : String

-- What a client is answered; a panic is stopped by the HTTP server, which drops the connection.
pub data Answer (A : Type 0) : Type 0 where
  response : A → Answer A
  failed : ℕ → Answer A
  panicked : Answer A

pub record Request (A : Type 0) : Type 0 where
  pub method : String
  -- of the client, as its TLS connection presented them
  pub peer_certificates : List Certificate
  pub body : A

unfoldable pub check_name :
    {B : Type 0} → Result Authority.Error CertificateName → Answer B → Answer B
check_name (err e) answer = failed 403
check_name panic answer = panicked
check_name (ok names) answer = if not (names.purpose == control_purpose) then failed 403 else answer

-- The certificate is there, since the server's TLS configuration requires one.
unfoldable pub check_client : {B : Type 0} → CncServer → List Certificate → Answer B → Answer B
unfolding check_name
check_client s [] answer = panicked
check_client s (cert ∷ more) answer = check_name (get_certificate_name_from_cert s.lib cert) answer

unfoldable pub authenticate :
    {A B : Type 0} → CncServer → String → (A → Answer B) → Request A → Answer B
unfolding check_client
authenticate s method h r =
    if not (r.method == method) then failed 405 else check_client s r.peer_certificates (h r.body)

-- What a handler does once its body is decoded, where that and its validation succeed.
unfoldable pub validated :
    {A B : Type 0} → (A → Option Invalid) → (A → Answer B) → Option A → Answer B
validated check h none = failed 400
validated check h (some req) = elim (check req) [ some field ↦ failed 400 | none ↦ h req ]

unfoldable pub or_fail : {E A B : Type 0} → Result E A → (A → Answer B) → Answer B
or_fail (ok a) h = h a
or_fail (err e) h = failed 400
or_fail panic h = panicked

module _ (s : CncServer) (now random : ℕ) where
  abbrev pub kubectl_name : KubeConfigRequest → CertificateName
  kubectl_name req = record {
    name = req.name;
    type = "kubernetes";
    agent = req.agent_name;
    purpose = service_purpose;
  }

  unfoldable pub issue_kubectl_components : KubeConfigRequest → Answer KubeConfigResponse
  unfolding or_fail
  issue_kubectl_components req =
      or_fail (generate_certificate s.lib s.authority (kubectl_name req) now random) (λ issued.
        response (record {
          agent_name = req.agent_name;
          name = req.name;
          server_url = s.cfg.service_url;
          user_certificate = issued.1;
          user_key = issued.2;
          ca_cert = issued.0;
        }))

  unfoldable pub generate_kubectl_components : Option KubeConfigRequest → Answer KubeConfigResponse
  unfolding validated issue_kubectl_components
  generate_kubectl_components = validated validate_kube_config_request issue_kubectl_components

  abbrev pub manifest_name : ManifestRequest → CertificateName
  manifest_name req = record {
    name = "";
    type = "";
    agent = req.agent_name;
    purpose = agent_purpose;
  }

  -- `branch` and `build` are what the package `version` was built with.
  unfoldable pub generate_agent_manifest_components :
      String → String → Option ManifestRequest → Answer ManifestResponse
  unfolding validated or_fail
  generate_agent_manifest_components branch build = validated validate_manifest_request (λ req.
      or_fail (generate_certificate s.lib s.authority (manifest_name req) now random) (λ issued.
        response (record {
          agent_name = req.agent_name;
          server_hostname = s.cfg.agent_hostname;
          server_port = s.cfg.agent_advertise_port;
          agent_certificate = issued.1;
          agent_version = if not (build == "release") then "latest" else branch;
          agent_key = issued.2;
          ca_cert = issued.0;
        })))

  -- A type or name that is missing is taken from the old field.
  unfoldable pub upgrade : ServiceCredentialRequest → ServiceCredentialRequest
  upgrade req = record req {
    type = if is_empty_text req.type then req.old_type else req.type;
    name = if is_empty_text req.name then req.old_name else req.name;
  }

  unfoldable pub credential_response :
      ServiceCredentialRequest → String → String → ServiceCredentialResponse
  credential_response req token ca_cert =
      let user = concat (req.name ∷ "." ∷ req.agent_name ∷ []) in
      let is_aws = req.type == "aws" in
      record {
        agent_name = req.agent_name;
        name = req.name;
        type = req.type;
        username = if is_aws then "" else user;
        password = if is_aws then "" else token;
        credential_type = if is_aws then "aws" else "basic";
        credential =
            if is_aws
            then aws (record { aws_access_key = user; aws_secret_access_key = token })
            else basic (record { username = user; password = token });
        url = s.cfg.service_url;
        ca_cert = ca_cert;
      }

  unfoldable pub issue_service_credentials :
      ServiceCredentialRequest → Answer ServiceCredentialResponse
  unfolding or_fail credential_response
  issue_service_credentials req =
      or_fail (make_jwt s.tokens req.type req.name req.agent_name now) (λ token.
        or_fail (get_ca_cert s.lib s.authority)
          (λ ca_cert. response (credential_response req token ca_cert)))

  unfoldable pub generate_service_credentials :
      Option ServiceCredentialRequest → Answer ServiceCredentialResponse
  unfolding validated upgrade issue_service_credentials
  generate_service_credentials =
      validated (λ req. validate_service_credential_request (upgrade req))
        (λ req. issue_service_credentials (upgrade req))

  abbrev pub control_name : ControlCredentialsRequest → CertificateName
  control_name req = record { name = req.name; type = ""; agent = ""; purpose = agent_purpose }

  unfoldable pub issue_control_credentials :
      ControlCredentialsRequest → Answer ControlCredentialsResponse
  unfolding or_fail
  issue_control_credentials req =
      or_fail (generate_certificate s.lib s.authority (control_name req) now random) (λ issued.
        response (record {
          name = req.name;
          url = s.cfg.control_url;
          certificate = issued.1;
          key = issued.2;
          ca_cert = issued.0;
        }))

  unfoldable pub generate_control_credentials :
      Option ControlCredentialsRequest → Answer ControlCredentialsResponse
  unfolding validated issue_control_credentials
  generate_control_credentials =
      validated validate_control_credentials_request issue_control_credentials

unfoldable pub get_statistics : {A : Type 0} → CncServer → ℕ → A → Answer (StatisticsResponse A)
get_statistics s now agents =
    response (record { server_time = now; version = s.version; connected_agents = agents })
