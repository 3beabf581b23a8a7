-- ===== src/Service/Generic/Sent.antt =====
-- What a generic endpoint sends to its service.
use oes_birger.Prelude.{
  ℕ, String, ◌==◌, eq_refl, ◌≡◌, refl, ap, ◌∙◌, sym, Bool, List, [], ◌∷◌, Option, none, some,
  if◌then◌else◌, arith, lookup, lookup-insert, lookup-delete, Result, ok, err, panic, >>=-eq-ok,
}
use oes_birger.Text.{canonical_key, concat}
use oes_birger.Jwt.{Registry, Mutation}
use oes_birger.Jwt
use oes_birger.Tunnel.Messages.{OpenHttpTunnelRequest}
use oes_birger.Tunnel.Headers.{Header, copy_headers, header_set}
use oes_birger.Tunnel.Cancel.{
  CancelRegistry, register_cancel_function, unregister_cancel_function, call_cancel_function,
}
use oes_birger.Tunnel.Request.{HttpResponse}
use oes_birger.Service.Generic.{Credentials, GenericEndpoint}
use oes_birger.Service.Generic.Uri.{unmutate_uri}
use oes_birger.Service.Outgoing.{OutgoingRequest, Execution, ok-inj, send_built-Sends}
use oes_birger.Service.Generic.Execute.{
  set_credentials, trim_space, outgoing_header, call_with, call_service, execute_http_request,
}

-- What the service reads under `Authorization` for credentials of each type.
abbrev pub authorization_of : (String → String → String) → Credentials → Option (List String)
authorization_of basic_header c =
    if c.type == "basic"
    then some (basic_header (trim_space c.raw_username) (trim_space c.raw_password) ∷ [])
    else if c.type == "bearer"
    then some (concat ("Bearer " ∷ c.raw_token ∷ []) ∷ [])
    else if c.type == "token"
    then some (concat ("Token " ∷ c.raw_token ∷ []) ∷ [])
    else none

pub lookup-set_authorization :
    (value : String) (h : Header)
    → lookup "Authorization" (header_set "Authorization" value h) ≡ some (value ∷ [])
unfolding header_set canonical_key
lookup-set_authorization value h = lookup-insert "Authorization" "Authorization" (value ∷ []) h

lookup-set_credentials :
    (basic_header : String → String → String) (c : Credentials) (h : Header) (values : List String)
    → authorization_of basic_header c ≡ some values
    → lookup "Authorization" (set_credentials basic_header c h) ≡ some values
unfolding set_credentials
lookup-set_credentials basic_header c h values e = ground (
  arith,
  lookup-set_authorization (basic_header (trim_space c.raw_username) (trim_space c.raw_password)) h,
  lookup-set_authorization (concat ("Bearer " ∷ c.raw_token ∷ [])) h,
  lookup-set_authorization (concat ("Token " ∷ c.raw_token ∷ [])) h,
)

module _ (reg : Registry) (m : Mutation) (now : ℕ) (basic_header : String → String → String) where
  outgoing-authorization :
      (ep : GenericEndpoint) (agent_name : String) (req : OpenHttpTunnelRequest) (header : Header)
      (values : List String)
      → outgoing_header reg m now basic_header ep agent_name req ≡ ok header
      → authorization_of basic_header ep.credentials ≡ some values
      → lookup "Authorization" header ≡ some values
  unfolding outgoing_header
  outgoing-authorization ep agent_name req header values e a =
      let (h, copied, e₁) = >>=-eq-ok (copy_headers reg m now req.headers []) _ e in
      let same : set_credentials basic_header ep.credentials _ ≡ header = ok-inj e₁ in
      ap (lookup "Authorization") (sym same)
      ∙ lookup-set_credentials basic_header ep.credentials _ values a

  call_service-lem :
      (build : OutgoingRequest → Bool) (respond : OutgoingRequest → Option HttpResponse)
      (ep : GenericEndpoint) (agent_name : String) (req : OpenHttpTunnelRequest)
      (registered : CancelRegistry) (uri : String) (ex : Execution)
      → call_service reg m now basic_header build respond ep agent_name req registered uri ≡ ok ex
      → (ex.cancels ≡ unregister_cancel_function req.id registered)
        × ((full : OutgoingRequest)
            → ex.request ≡ some full
            → outgoing_header reg m now basic_header ep agent_name req ≡ ok full.header)
  unfolding call_service
  call_service-lem build respond ep agent_name req registered uri ex e =
      let sends =
        send_built-Sends reg m now respond req
          (record {
            method = req.method;
            url = concat (ep.url ∷ uri ∷ []);
            header = [];
            body = req.body;
          })
          (unregister_cancel_function req.id registered) ex build
          (outgoing_header reg m now basic_header ep agent_name req) e in
      (sends.0, λ full f. (sends.1 full f).0)

  call_with-header :
      (build : OutgoingRequest → Bool) (respond : OutgoingRequest → Option HttpResponse)
      (ep : GenericEndpoint) (agent_name : String) (req : OpenHttpTunnelRequest) (ctx : ℕ)
      (cancels : CancelRegistry) (uri : Result Jwt.Error String) (ex : Execution)
      (full : OutgoingRequest)
      → call_with reg m now basic_header build respond ep agent_name req ctx cancels uri ≡ ok ex
      → ex.request ≡ some full
      → outgoing_header reg m now basic_header ep agent_name req ≡ ok full.header
  unfolding call_with
  call_with-header build respond ep agent_name req ctx cancels (err x) ex full e f =
      cc (ap (λ x. x.request) (ok-inj e), f)
  call_with-header build respond ep agent_name req ctx cancels panic ex full e f = cc e
  call_with-header build respond ep agent_name req ctx cancels (ok uri) ex full e f =
      (call_service-lem build respond ep agent_name req
          (register_cancel_function req.id ctx cancels) uri ex e).1
        full f

  call_with-unregistered :
      (build : OutgoingRequest → Bool) (respond : OutgoingRequest → Option HttpResponse)
      (ep : GenericEndpoint) (agent_name : String) (req : OpenHttpTunnelRequest) (ctx : ℕ)
      (cancels : CancelRegistry) (uri : Result Jwt.Error String) (ex : Execution)
      → call_with reg m now basic_header build respond ep agent_name req ctx cancels uri ≡ ok ex
      → lookup req.id cancels.m ≡ none
      → lookup req.id ex.cancels.m ≡ none
  unfolding call_with unregister_cancel_function
  call_with-unregistered build respond ep agent_name req ctx cancels (err x) ex e free =
      ap (λ x. lookup req.id x.cancels.m) (sym (ok-inj e)) ∙ free
  call_with-unregistered build respond ep agent_name req ctx cancels panic ex e free = cc e
  call_with-unregistered build respond ep agent_name req ctx cancels (ok uri) ex e free =
      let registered = register_cancel_function req.id ctx cancels in
      let same = (call_service-lem build respond ep agent_name req registered uri ex e).0 in
      ap (λ r. lookup req.id r.m) same
      ∙ (lookup-delete req.id req.id registered.m ∙ rw (eq_refl req.id) refl)

  -- Whatever a client sends under Authorization, and whatever else comes over the tunnel, a request
  -- that reaches the service of an endpoint with credentials carries those credentials, and nothing
  -- else, under that name.
  pub execute_http_request-authorization :
      (build : OutgoingRequest → Bool) (respond : OutgoingRequest → Option HttpResponse)
      (ep : GenericEndpoint) (agent_name : String) (req : OpenHttpTunnelRequest) (ctx : ℕ)
      (cancels : CancelRegistry) (ex : Execution) (full : OutgoingRequest) (values : List String)
      → execute_http_request reg m now basic_header build respond ep agent_name req ctx cancels
        ≡ ok ex
      → ex.request ≡ some full
      → authorization_of basic_header ep.credentials ≡ some values
      → lookup "Authorization" full.header ≡ some values
  unfolding execute_http_request
  execute_http_request-authorization build respond ep agent_name req ctx cancels ex full values e f
        a =
      outgoing-authorization ep agent_name req full.header values
        (call_with-header build respond ep agent_name req ctx cancels
          (unmutate_uri reg m now req.type req.method req.uri) ex full e f)
        a

  -- A request that was not registered before leaves nothing behind in the table of cancel functions:
  -- once it is executed, however it ended short of a panic, a cancellation of its id does nothing.
  pub execute_http_request-unregistered :
      (build : OutgoingRequest → Bool) (respond : OutgoingRequest → Option HttpResponse)
      (ep : GenericEndpoint) (agent_name : String) (req : OpenHttpTunnelRequest) (ctx : ℕ)
      (cancels : CancelRegistry) (ex : Execution)
      → execute_http_request reg m now basic_header build respond ep agent_name req ctx cancels
        ≡ ok ex
      → lookup req.id cancels.m ≡ none
      → call_cancel_function req.id ex.cancels ≡ ex.cancels
  unfolding execute_http_request call_cancel_function
  execute_http_request-unregistered build respond ep agent_name req ctx cancels ex e free =
      let gone =
        call_with-unregistered build respond ep agent_name req ctx cancels
          (unmutate_uri reg m now req.type req.method req.uri) ex e free in
      rw (gone, call_cancel_function) refl
