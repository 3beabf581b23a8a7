-- ===== src/Service/Kubernetes/Execute.antt =====
-- kubernetes.go, `ExecuteHTTPRequest`: a request to the API server. `build` says whether
-- `http.NewRequestWithContext` takes the request, and `respond` is what `client.Do` comes to with the
-- TLS configuration of the client.
use oes_birger.Prelude.{
  ℕ, Bool, List, [], ◌∷◌, Option, none, some, if◌then◌else◌, Result, ok, ◌>>=◌,
}
use oes_birger.Text.{is_empty_text, concat}
use oes_birger.Authority.{Certificate, KeyPair}
use oes_birger.Jwt.{Registry, Mutation}
use oes_birger.Jwt
use oes_birger.Tunnel.Messages.{OpenHttpTunnelRequest}
use oes_birger.Tunnel.Headers.{Header, copy_headers, header_set}
use oes_birger.Tunnel.Cancel.{CancelRegistry, register_cancel_function, unregister_cancel_function}
use oes_birger.Tunnel.Request.{HttpResponse}
use oes_birger.Service.Outgoing.{OutgoingRequest, Execution, send_built}
use oes_birger.Service.Kubernetes.{KubeContext, KubernetesEndpoint}

pub record TlsConfig : Type 0 where
  pub insecure_skip_verify : Bool
  pub root_cas : Option (List Certificate)
  pub certificates : List KeyPair

-- A copy of every field of the context in use, taken under the lock.
unfoldable pub make_server_context_fields : KubernetesEndpoint → KubeContext
make_server_context_fields ke = record {
  username = ke.f.username;
  server_url = ke.f.server_url;
  server_ca = ke.f.server_ca;
  client_cert = ke.f.client_cert;
  token = ke.f.token;
  insecure = ke.f.insecure;
}

abbrev roots : Option Certificate → Option (List Certificate)
roots none = none
roots (some ca) = some (ca ∷ [])

abbrev own_certificates : Option KeyPair → List KeyPair
own_certificates none = []
own_certificates (some pair) = pair ∷ []

unfoldable pub tls_config : KubeContext → TlsConfig
tls_config c = record {
  insecure_skip_verify = c.insecure;
  root_cas = roots c.server_ca;
  certificates = own_certificates c.client_cert;
}

unfoldable pub set_token : KubeContext → Header → Header
unfolding concat is_empty_text
set_token c h =
    if is_empty_text c.token
    then h
    else header_set "Authorization" (concat ("Bearer " ∷ c.token ∷ [])) h

module _ (reg : Registry) (m : Mutation) (now : ℕ) where
  unfoldable pub api_header : KubeContext → OpenHttpTunnelRequest → Result Jwt.Error Header
  unfolding set_token
  api_header c req = do h ← copy_headers reg m now req.headers []; ok (set_token c h)

  -- The request is unregistered on every way out.
  unfoldable pub execute_with :
      (OutgoingRequest → Bool)
      → (TlsConfig → OutgoingRequest → Option HttpResponse)
      → KubeContext
      → OpenHttpTunnelRequest
      → CancelRegistry
      → Result Jwt.Error Execution
  unfolding api_header tls_config send_built
  execute_with build respond c req registered =
      let cancels = unregister_cancel_function req.id registered in
      let bare : OutgoingRequest = record {
        method = req.method;
        url = concat (c.server_url ∷ req.uri ∷ []);
        header = [];
        body = req.body;
      } in
      send_built reg m now build (respond (tls_config c)) req bare cancels (api_header c req)

  unfoldable pub execute_http_request :
      (OutgoingRequest → Bool)
      → (TlsConfig → OutgoingRequest → Option HttpResponse)
      → KubernetesEndpoint
      → OpenHttpTunnelRequest
      → ℕ
      → CancelRegistry
      → Result Jwt.Error Execution
  unfolding make_server_context_fields execute_with
  execute_http_request build respond ke req ctx cancels =
      execute_with build respond (make_server_context_fields ke) req
        (register_cancel_function req.id ctx cancels)
