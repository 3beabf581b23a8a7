-- ===== src/Service/Generic/Execute.antt =====
-- generic_endpoint.go, `ExecuteHTTPRequest`. The text of a Basic header is the parameter `basic_header`;
-- `build` says whether `http.NewRequestWithContext` takes the request, and `respond` is what `client.Do`
-- comes to.
use Prim.Native.Char.{Char, code}
use oes_birger.Prelude.{
  ℕ, String, ◌==◌, Bool, ◌&&◌, ◌||◌, [], ◌∷◌, Option, if◌then◌else◌, eqb, leb, Result, ok, err,
  panic, ◌>>=◌,
}
use oes_birger.Text.{is_empty_text, concat}
use oes_birger.Jwt.{Registry, Mutation, unmutate_header, mutation_is_registered}
use oes_birger.Jwt
use oes_birger.Tunnel.Messages.{OpenHttpTunnelRequest}
use oes_birger.Tunnel.Headers.{Header, copy_headers, header_set}
use oes_birger.Tunnel.Cancel.{CancelRegistry, register_cancel_function, unregister_cancel_function}
use oes_birger.Tunnel.Request.{HttpResponse}
use oes_birger.Service.Outgoing.{OutgoingRequest, Execution, refuse, send_built}
use oes_birger.Service.Generic.{Credentials, GenericEndpoint}
use oes_birger.Service.Generic.Uri.{unmutate_uri}

-- What `strings.TrimSpace` takes for white space.
unfoldable pub is_space : Char → Bool
is_space c =
    let n = code c in
    (leb 9 n && leb n 13)
    || eqb n 32
    || eqb n 133
    || eqb n 160
    || eqb n 5760
    || (leb 8192 n && leb n 8202)
    || eqb n 8232
    || eqb n 8233
    || eqb n 8239
    || eqb n 8287
    || eqb n 12288

unfoldable pub trim_left : String → String
unfolding is_space
trim_left String.[] = ""
trim_left (String.◌∷◌ c s) = let rest = trim_left s in if is_space c then rest else String.◌∷◌ c s

unfoldable pub trim_right : String → String
unfolding is_space
trim_right String.[] = ""
trim_right (String.◌∷◌ c s) =
    let rest = trim_right s in if is_space c && is_empty_text rest then "" else String.◌∷◌ c rest

unfoldable pub trim_space : String → String
unfolding trim_left trim_right
trim_space s = trim_left (trim_right s)

-- The credentials on their way into the request: a user and password are trimmed, a token is not.
unfoldable pub set_credentials : (String → String → String) → Credentials → Header → Header
unfolding trim_space concat
set_credentials basic_header c h =
    if c.type == "basic"
    then header_set "Authorization"
        (basic_header (trim_space c.raw_username) (trim_space c.raw_password)) h
    else if c.type == "bearer"
    then header_set "Authorization" (concat ("Bearer " ∷ c.raw_token ∷ [])) h
    else if c.type == "token"
    then header_set "Authorization" (concat ("Token " ∷ c.raw_token ∷ [])) h
    else h

module _ (reg : Registry) (m : Mutation) (now : ℕ) (basic_header : String → String → String) where
  -- The header of the request, once the client's headers are copied.
  unfoldable pub outgoing_header :
      GenericEndpoint → String → OpenHttpTunnelRequest → Result Jwt.Error Header
  unfolding set_credentials
  outgoing_header ep agent_name req = do
    h ← copy_headers reg m now req.headers []
    ok (
        set_credentials basic_header ep.credentials
          (if is_empty_text agent_name then h else header_set "x-opsmx-agent-name" agent_name h))

  -- From the registration of the request on; it is unregistered on every way out.
  unfoldable pub call_service :
      (OutgoingRequest → Bool)
      → (OutgoingRequest → Option HttpResponse)
      → GenericEndpoint
      → String
      → OpenHttpTunnelRequest
      → CancelRegistry
      → String
      → Result Jwt.Error Execution
  unfolding outgoing_header send_built
  call_service build respond ep agent_name req registered uri =
      let cancels = unregister_cancel_function req.id registered in
      let bare : OutgoingRequest = record {
        method = req.method;
        url = concat (ep.url ∷ uri ∷ []);
        header = [];
        body = req.body;
      } in
      send_built reg m now build respond req bare cancels (outgoing_header ep agent_name req)

  -- The request is registered once its URI is known.
  unfoldable pub call_with :
      (OutgoingRequest → Bool)
      → (OutgoingRequest → Option HttpResponse)
      → GenericEndpoint
      → String
      → OpenHttpTunnelRequest
      → ℕ
      → CancelRegistry
      → Result Jwt.Error String
      → Result Jwt.Error Execution
  unfolding call_service
  call_with build respond ep agent_name req ctx cancels (err e) = ok (refuse req cancels)
  call_with build respond ep agent_name req ctx cancels panic = panic
  call_with build respond ep agent_name req ctx cancels (ok uri) =
      call_service build respond ep agent_name req (register_cancel_function req.id ctx cancels) uri

  unfoldable pub execute_http_request :
      (OutgoingRequest → Bool)
      → (OutgoingRequest → Option HttpResponse)
      → GenericEndpoint
      → String
      → OpenHttpTunnelRequest
      → ℕ
      → CancelRegistry
      → Result Jwt.Error Execution
  unfolding unmutate_uri call_with
  execute_http_request build respond ep agent_name req ctx cancels =
      call_with build respond ep agent_name req ctx cancels
        (unmutate_uri reg m now req.type req.method req.uri)
