-- ===== src/Control.antt =====
-- app/forwarder-controller/grpc-server.go and app/forwarder-agent/grpc.go: one end of the tunnel, and
-- what it does with an HTTP message that arrives. The two programs have the same code here, but for
-- the agent's name, which only the controller passes on.
pub mod Delivery
pub mod EndToEnd
pub mod Spawned
pub mod Locked
pub mod Request
pub mod Call
use oes_birger.Prelude.{
  ℕ, ℤ, is_zero, String, ◌==◌, Bool, true, false, ◌&&◌, List, [], ◌∷◌, ◌++◌, Option, none, some,
  if◌then◌else◌,
}
use oes_birger.Channel.{Chan, send, update}
use oes_birger.Tunnel.Messages.{
  MessageWrapper, HttpTunnelControl, HttpTunnelResponse, HttpTunnelChunkedResponse,
  OpenHttpTunnelRequest, http_tunnel_control, open_http_tunnel_request, cancel_request,
  http_tunnel_response, http_tunnel_chunked_response, no_control, make_bad_gateway_response,
}
use oes_birger.Tunnel.Cancel.{CancelRegistry, call_cancel_function}
use oes_birger.Session.{SessionList, Chans, find_unlocked, remove_unlocked}
use oes_birger.Service.Endpoints.{ConfiguredEndpoint}

-- A goroutine that executes a request: `go endpoint.Instance.ExecuteHTTPRequest(...)`.
pub record Spawn : Type 0 where
  pub executor : ℕ
  pub agent_name : String
  pub req : OpenHttpTunnelRequest

pub record TunnelEnd : Type 0 where
  pub sessions : SessionList
  pub chans : Chans
  pub cancels : CancelRegistry
  pub spawned : List Spawn
  pub dataflow : Chan MessageWrapper

-- The loop over the endpoints: the first that is configured and has the type and name.
unfoldable pub find_endpoint :
    List ConfiguredEndpoint → OpenHttpTunnelRequest → Option ConfiguredEndpoint
find_endpoint [] req = none
find_endpoint (endpoint ∷ endpoints) req =
    if endpoint.configured && endpoint.type == req.type && endpoint.name == req.name
    then some endpoint
    else find_endpoint endpoints req

-- `dest <- in`, and the end of the session if this was its last message. `none` is a panic.
unfoldable pub pass_on : String → Bool → MessageWrapper → TunnelEnd → Option TunnelEnd
pass_on id is_last message t = elim (find_unlocked id t.sessions) [
  | none ↦ some t
  | some dest ↦ elim (send message (t.chans dest)) [
    | none ↦ none
    | some sent ↦ some (record t {
      chans = update t.chans dest sent;
      sessions = if is_last then remove_unlocked id t.sessions else t.sessions;
    })
  ]
]

abbrev pub is_empty : List ℕ → Bool
is_empty [] = true
is_empty (b ∷ body) = false

unfoldable pub open_request :
    String → List ConfiguredEndpoint → OpenHttpTunnelRequest → TunnelEnd → Option TunnelEnd
open_request agent_name endpoints req t = elim (find_endpoint endpoints req) [
  | some endpoint ↦ some (record t {
    spawned =
        t.spawned
        ++ record { executor = endpoint.executor; agent_name = agent_name; req = req } ∷ [];
  })
  | none ↦ elim (send (make_bad_gateway_response req.id) t.dataflow) [
    | none ↦ none
    | some dataflow ↦ some (record t { dataflow = dataflow })
  ]
]

unfoldable pub handle_http_control :
    String → List ConfiguredEndpoint → HttpTunnelControl → TunnelEnd → Option TunnelEnd
unfolding open_request
handle_http_control agent_name endpoints (cancel_request c) t =
    some (record t { cancels = call_cancel_function c.id t.cancels })
handle_http_control agent_name endpoints (open_http_tunnel_request req) t =
    open_request agent_name endpoints req t
handle_http_control agent_name endpoints (http_tunnel_response resp) t =
    pass_on resp.id (is_zero resp.content_length) (http_tunnel_control (http_tunnel_response resp))
      t
handle_http_control agent_name endpoints (http_tunnel_chunked_response resp) t =
    pass_on resp.id (is_empty resp.body) (http_tunnel_control (http_tunnel_chunked_response resp)) t
handle_http_control agent_name endpoints no_control t = some t

-- The agent's version passes no name on.
unfoldable pub agent_handle_http_control :
    List ConfiguredEndpoint → HttpTunnelControl → TunnelEnd → Option TunnelEnd
unfolding handle_http_control
agent_handle_http_control = handle_http_control ""
