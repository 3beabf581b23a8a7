-- ===== src/Cnc/Credentials.antt =====
-- What the credentials that the control API issues are good for: internal/serviceconfig/service_server.go
-- and the control API itself.
use oes_birger.Prelude.{
  ℕ, String, eq_refl, ◌≡◌, refl, sym, ap, subst, ◌∙◌, ◌+◌, ◌≤◌, ◌<◌, arith, [], ◌∷◌, Option, none,
  some, Result, ok, err, panic,
}
use oes_birger.Text.{is_empty_text}
use oes_birger.Jwt.{IsSound, make_jwt, serviceauth_registry_name}
use oes_birger.Jwt.RoundTrip.{validate_jwt-make_jwt}
use oes_birger.Authority.{
  Certificate, generate_certificate, get_ca_cert, get_certificate_name_from_cert, service_purpose,
}
use oes_birger.Authority.Issued.{IsFaithful, generate_certificate-name}
use oes_birger.Fwdapi.{
  KubeConfigRequest, KubeConfigResponse, ServiceCredentialRequest, ServiceCredentialResponse,
  Credential, basic, aws, ControlCredentialsRequest, ControlCredentialsResponse, Invalid,
  validate_kube_config_request, validate_control_credentials_request,
  validate_service_credential_request,
}
use oes_birger.Service.Credentials.{
  extract_endpoint, extract_endpoint_from_cert, extract_endpoint_from_jwt, auth_password,
  header_get, header_del, bearer_token, token_header,
}
use oes_birger.Tunnel.Headers.{Header}
use oes_birger.Cnc.{
  issue_kubectl_components, issue_control_credentials, CncServer, Answer, response, failed,
  authenticate, validated, or_fail, generate_kubectl_components, kubectl_name,
  generate_service_credentials, upgrade, issue_service_credentials, credential_response,
  generate_control_credentials, control_name,
}

validated-eq-response :
    {A B : Type 0} (check : A → Option Invalid) (h : A → Answer B) (body : Option A) (b : B)
    → validated check h body ≡ response b
    → (req : A) × (body ≡ some req) × (h req ≡ response b)
unfolding validated
validated-eq-response check h none b e = cc e
validated-eq-response check h (some req) b e =
    elim (check req)
        as (λ c.
          (elim c [ some field ↦ failed 400 | none ↦ h req ]) ≡ response b
          → (req' : _) × (some req ≡ some req') × (h req' ≡ response b)) [
            | some field ↦ λ f. cc f
            | none ↦ λ f. (req, refl, f)
          ]
      e

or_fail-eq-response :
    {E A B : Type 0} (r : Result E A) (h : A → Answer B) (b : B)
    → or_fail r h ≡ response b
    → (a : A) × (r ≡ ok a) × (h a ≡ response b)
unfolding or_fail
or_fail-eq-response (ok a) h b e = (a, refl, e)
or_fail-eq-response (err x) h b e = cc e
or_fail-eq-response panic h b e = cc e

response-inj : {A : Type 0} {a b : A} → response a ≡ response b → a ≡ b
response-inj e = cc e

module _ (s : CncServer) (signed random : ℕ) where
  -- The part of a response that a client logs in with.
  abbrev pub password_of : Credential → String
  password_of (basic c) = c.password
  password_of (aws c) = c.aws_secret_access_key

  password_of-credential_response :
      (req : ServiceCredentialRequest) (token ca_cert : String)
      → password_of (credential_response s signed random req token ca_cert).credential ≡ token
  unfolding credential_response
  password_of-credential_response req token ca_cert = ground arith

  -- What is signed for the request is what the response says and holds.
  of_response :
      (req : ServiceCredentialRequest) (token ca_cert : String) (resp : ServiceCredentialResponse)
      → make_jwt s.tokens req.type req.name req.agent_name signed ≡ ok token
      → credential_response s signed random req token ca_cert ≡ resp
      → make_jwt s.tokens resp.type resp.name resp.agent_name signed
        ≡ ok (password_of resp.credential)
  unfolding credential_response
  of_response req token ca_cert resp made same =
      subst
        (λ r. make_jwt s.tokens r.type r.name r.agent_name signed ≡ ok (password_of r.credential))
        same (made ∙ ap ok (sym (password_of-credential_response req token ca_cert)))

  issued-token :
      (req : ServiceCredentialRequest) (resp : ServiceCredentialResponse)
      → issue_service_credentials s signed random req ≡ response resp
      → make_jwt s.tokens resp.type resp.name resp.agent_name signed
        ≡ ok (password_of resp.credential)
  unfolding issue_service_credentials
  issued-token req resp e =
      let (token, made, e₁) =
        or_fail-eq-response (make_jwt s.tokens req.type req.name req.agent_name signed) _ resp e in
      let (ca_cert, got, e₂) = or_fail-eq-response (get_ca_cert s.lib s.authority) _ resp e₁ in
      of_response req token ca_cert resp made (response-inj e₂)

  -- Service credentials are good for the endpoint that they name. If the control API has answered with
  -- them, and a client without a certificate gives the password in them (or the secret key, for an
  -- endpoint of type aws) as its Basic password, with no other token, before the token's validity is
  -- over, then the service API takes the client to speak for the agent, type and name in the response.
  pub extract_endpoint-generate_service_credentials :
      (basic_auth : String → Option (String × String)) (body : Option ServiceCredentialRequest)
      (resp : ServiceCredentialResponse) (h : Header) (username : String) (now : ℕ)
      → IsSound s.tokens
      → generate_service_credentials s signed random body ≡ response resp
      → header_get token_header h ≡ ""
      → bearer_token (header_get "Authorization" h) ≡ ""
      → basic_auth (header_get "Authorization" h) ≡ some (username, password_of resp.credential)
      → signed ≤ now
      → now < signed + s.tokens.validity serviceauth_registry_name
      → extract_endpoint basic_auth s.lib s.tokens now [] h ≡ (
        ok (record {
          agent_identity = resp.agent_name;
          endpoint_type = resp.type;
          endpoint_name = resp.name;
        }),
        header_del token_header h,
      )
  unfolding generate_service_credentials extract_endpoint extract_endpoint_from_cert
      extract_endpoint_from_jwt auth_password is_empty_text
  extract_endpoint-generate_service_credentials basic_auth body resp h username now sound e none₁
        none₂ given early late =
      let (req, b, e₁) =
        validated-eq-response (λ r. validate_service_credential_request (upgrade s signed random r))
          (λ r. issue_service_credentials s signed random (upgrade s signed random r)) body resp
          e in
      let valid =
        validate_jwt-make_jwt s.tokens sound signed now (password_of resp.credential) resp.type
          resp.name resp.agent_name (issued-token (upgrade s signed random req) resp e₁) early
          late in
      rw (none₁, none₂, given, valid)

module _ (s : CncServer) (now random : ℕ) (decode : String → Option Certificate)
    (faithful : IsFaithful s.lib decode) where
  kubectl-certificate :
      (req : KubeConfigRequest) (resp : KubeConfigResponse)
      → issue_kubectl_components s now random req ≡ response resp
      → (cert : Certificate) × (decode resp.user_certificate ≡ some cert)
        × (get_certificate_name_from_cert s.lib cert
            ≡ ok (record {
              name = resp.name;
              type = "kubernetes";
              agent = resp.agent_name;
              purpose = service_purpose;
            }))
  unfolding issue_kubectl_components
  kubectl-certificate req resp e =
      let (issued, made, e₁) =
        or_fail-eq-response
          (generate_certificate s.lib s.authority (kubectl_name s now random req) now random) _ resp
          e in
      let (cert, read, name) =
        generate_certificate-name s.lib decode faithful s.authority (kubectl_name s now random req)
          now random made in
      let same = response-inj e₁ in
      (
        cert,
        ap (λ r. decode r.user_certificate) (sym same) ∙ read,
        name
            ∙ ap
                (λ r. ok (record {
                  name = r.name;
                  type = "kubernetes";
                  agent = r.agent_name;
                  purpose = service_purpose;
                }))
                same,
      )

  -- A kubectl client that presents the certificate that the control API has issued it is taken by the
  -- service API to speak for the agent and name in the response, with the type kubernetes, and its
  -- headers are left alone. The certificate can be read from the response.
  pub extract_endpoint-generate_kubectl_components :
      (basic_auth : String → Option (String × String)) (body : Option KubeConfigRequest)
      (resp : KubeConfigResponse) (h : Header) (later : ℕ)
      → generate_kubectl_components s now random body ≡ response resp
      → (cert : Certificate) × (decode resp.user_certificate ≡ some cert)
        × (extract_endpoint basic_auth s.lib s.tokens later (cert ∷ []) h ≡ (
          ok (record {
            agent_identity = resp.agent_name;
            endpoint_type = "kubernetes";
            endpoint_name = resp.name;
          }),
          h,
        ))
  unfolding generate_kubectl_components extract_endpoint extract_endpoint_from_cert
  extract_endpoint-generate_kubectl_components basic_auth body resp h later e =
      let (req, b, e₁) =
        validated-eq-response validate_kube_config_request (issue_kubectl_components s now random)
          body resp e in
      let (cert, read, name) = kubectl-certificate req resp e₁ in
      (cert, read, rw (extract_endpoint, extract_endpoint_from_cert, name) refl)

  control-certificate :
      (req : ControlCredentialsRequest) (resp : ControlCredentialsResponse)
      → issue_control_credentials s now random req ≡ response resp
      → (cert : Certificate) × (decode resp.certificate ≡ some cert)
        × (get_certificate_name_from_cert s.lib cert ≡ ok (control_name s now random req))
  unfolding issue_control_credentials
  control-certificate req resp e =
      let (issued, made, e₁) =
        or_fail-eq-response
          (generate_certificate s.lib s.authority (control_name s now random req) now random) _ resp
          e in
      let (cert, read, name) =
        generate_certificate-name s.lib decode faithful s.authority (control_name s now random req)
          now random made in
      (cert, ap (λ r. decode r.certificate) (sym (response-inj e₁)) ∙ read, name)

  -- The certificate that the control API issues as a control credential is refused by the control API:
  -- each handler behind `authenticate` answers 403 to it, whatever the body, if the method is right.
  pub authenticate-generate_control_credentials :
      {A B : Type 0} (body : Option ControlCredentialsRequest) (resp : ControlCredentialsResponse)
      (method : String) (h : A → Answer B) (a : A)
      → generate_control_credentials s now random body ≡ response resp
      → (cert : Certificate) × (decode resp.certificate ≡ some cert)
        × (authenticate s method h
              (record { method = method; peer_certificates = cert ∷ []; body = a })
            ≡ failed 403)
  unfolding generate_control_credentials authenticate
  authenticate-generate_control_credentials body resp method h a e =
      let (req, b, e₁) =
        validated-eq-response validate_control_credentials_request
          (issue_control_credentials s now random) body resp e in
      let (cert, read, name) = control-certificate req resp e₁ in
      (cert, read, rw (eq_refl method, name) refl)
