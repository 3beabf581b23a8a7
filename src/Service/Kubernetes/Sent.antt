-- ===== src/Service/Kubernetes/Sent.antt =====
-- What a Kubernetes endpoint sends to its API server.
use oes_birger.Prelude.{
  ℕ, eq_iff, eq_refl, ◌≡◌, ◌≢◌, refl, ap, ◌∙◌, sym, Bool, [], ◌∷◌, Option, none, some, arith,
  lookup, lookup-delete, ok, >>=-eq-ok,
}
use oes_birger.Text.{concat, is_empty_text}
use oes_birger.Jwt.{Registry, Mutation}
use oes_birger.Tunnel.Messages.{OpenHttpTunnelRequest}
use oes_birger.Tunnel.Headers.{Header, copy_headers}
use oes_birger.Tunnel.Cancel.{
  CancelRegistry, register_cancel_function, unregister_cancel_function, call_cancel_function,
}
use oes_birger.Tunnel.Request.{HttpResponse}
use oes_birger.Service.Outgoing.{OutgoingRequest, Execution, ok-inj, Sends, send_built-Sends}
use oes_birger.Service.Generic.Sent.{lookup-set_authorization}
use oes_birger.Service.Kubernetes.{KubeContext, KubernetesEndpoint}
use oes_birger.Service.Kubernetes.Execute.{
  TlsConfig, tls_config, set_token, api_header, execute_with, execute_http_request,
  make_server_context_fields,
}

lookup-set_token :
    (c : KubeContext) (h : Header)
    → c.token ≢ ""
    → lookup "Authorization" (set_token c h) ≡ some (concat ("Bearer " ∷ c.token ∷ []) ∷ [])
unfolding set_token is_empty_text
lookup-set_token c h t =
    ground
      (arith, eq_iff c.token "", lookup-set_authorization (concat ("Bearer " ∷ c.token ∷ [])) h)

module _ (reg : Registry) (m : Mutation) (now : ℕ) (build : OutgoingRequest → Bool)
    (respond : TlsConfig → OutgoingRequest → Option HttpResponse) (ke : KubernetesEndpoint)
    (req : OpenHttpTunnelRequest) (ctx : ℕ) (cancels : CancelRegistry) (ex : Execution)
    (e : execute_http_request reg m now build respond ke req ctx cancels ≡ ok ex) where
  abbrev bare : OutgoingRequest
  bare = record {
    method = req.method;
    url = concat (ke.f.server_url ∷ req.uri ∷ []);
    header = [];
    body = req.body;
  }

  abbrev fields : KubeContext
  fields = make_server_context_fields ke

  execute_http_request-Sends :
      Sends reg m now
        (respond (tls_config fields))
        req
        bare
        (unregister_cancel_function req.id (register_cancel_function req.id ctx cancels))
        ex
        (api_header reg m now fields req)
  unfolding execute_http_request execute_with make_server_context_fields
  execute_http_request-Sends =
      send_built-Sends reg m now (respond (tls_config fields)) req bare _ ex build
        (api_header reg m now fields req) e

  -- Where the security context has a token, a request that reaches the API server has the server's URL
  -- followed by the client's URI, and the client's method and body, and it carries the token, and nothing
  -- else, under Authorization, whatever the client sends there.
  pub kubernetes_request-authorization :
      (full : OutgoingRequest)
      → ex.request ≡ some full
      → ke.f.token ≢ ""
      → (full.url ≡ concat (ke.f.server_url ∷ req.uri ∷ []))
        × (full.method ≡ req.method)
        × (full.body ≡ req.body)
        × (lookup "Authorization" full.header ≡ some (concat ("Bearer " ∷ ke.f.token ∷ []) ∷ []))
  unfolding api_header make_server_context_fields
  kubernetes_request-authorization full f token =
      let (made, same) = execute_http_request-Sends.1 full f in
      let (h, _, e₁) = >>=-eq-ok (copy_headers reg m now req.headers []) _ made in
      (
        ap (λ r. r.url) same,
        ap (λ r. r.method) same,
        ap (λ r. r.body) same,
        ap (lookup "Authorization") (sym (ok-inj e₁)) ∙ lookup-set_token fields h token,
      )

  -- Once a request is executed, short of a panic, a cancellation of its id does nothing.
  pub kubernetes_request-unregistered : call_cancel_function req.id ex.cancels ≡ ex.cancels
  unfolding call_cancel_function unregister_cancel_function
  kubernetes_request-unregistered =
      let registered = register_cancel_function req.id ctx cancels in
      let gone : lookup req.id ex.cancels.m ≡ none =
        ap (λ r. lookup req.id r.m) execute_http_request-Sends.0
        ∙ (lookup-delete req.id req.id registered.m ∙ rw (eq_refl req.id) refl) in
      rw (gone, call_cancel_function) refl
