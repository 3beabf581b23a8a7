-- ===== src/Connection.antt =====
-- app/forwarder-controller/grpc-server.go, `EventTunnel`: the controller's end of one connection of an
-- agent, as a state and a step for each thing that the stream delivers. The route object of the
-- connection stands in the store of the routes; the two goroutines that drain its channels are steps
-- of their own. `sends` says whether a send on the stream succeeds.
pub mod End
pub mod Greeted
pub mod Twice
pub mod Agent
pub mod Peer
pub mod Health
use oes_birger.Prelude.{
  ℕ, ◌/◌, String, ◌==◌, Bool, true, false, not, List, [], ◌∷◌, ◌++◌, map, Option, none, some,
  if◌then◌else◌, Result, ok, err, panic, ◌>>=◌,
}
use oes_birger.Channel.{update}
use oes_birger.Authority.{Bytes, Certificate, Crypto, get_certificate_name_from_cert, agent_purpose}
use oes_birger.Authority
use oes_birger.Tunnel.Messages.{
  MessageWrapper, PingRequest, Hello, EndpointHealth, ping_request, ping_response, hello,
  http_tunnel_control, no_event, make_ping_response, make_http_tunnel_cancel_request,
  make_http_tunnel_open_tunnel_request,
}
use oes_birger.Tunnel.AgentInfo.{annotations_into, from_pb}
use oes_birger.Session.{close_all}
use oes_birger.Session
use oes_birger.Service.Endpoints.{ConfiguredEndpoint, endpoints_to_pb}
use oes_birger.Route.Direct.{DirectlyConnectedRoute, Endpoint, Message, http_message, unexpected}
use oes_birger.Route.Tracker.{ConnectedRoutes}
use oes_birger.Route.Tracker
use oes_birger.Control.{TunnelEnd, handle_http_control}

-- `agentTunnelServer`, with what the package and the build supply.
pub record AgentTunnelServer : Type 0 where
  pub insecure : Bool
  pub endpoints : List ConfiguredEndpoint
  pub lib : Crypto
  pub version : String
  pub has_hook : Bool

-- What the webhook is sent.
pub record BaseStatistics : Type 0 where
  pub name : String
  pub session : String
  pub endpoints : List Endpoint

-- `state` is the reference of the route object, `stream` what this goroutine has sent.
pub record Connection : Type 0 where
  pub state : ℕ
  pub routes : ConnectedRoutes
  pub tunnel_end : TunnelEnd
  pub stream : List MessageWrapper
  pub hooks : List BaseStatistics

pub data Incoming : Type 0 where
  received : MessageWrapper → Incoming
  end_of_stream : Incoming
  receive_error : Incoming

-- The handler goes on, or it has returned, with an error or without one.
pub data Outcome : Type 0 where
  continues : Connection → Outcome
  returned : Bool → Connection → Outcome
  panicked : Outcome

unfoldable pub get_agent_name_from_certificate :
    Crypto → Certificate → Result Authority.Error (Option String)
get_agent_name_from_certificate lib cert = do
  names ← get_certificate_name_from_cert lib cert
  ok (if not (names.purpose == agent_purpose) then none else some names.agent)

-- `ok none` is the error of a certificate that is not an agent's.
unfoldable pub get_agent_name_from_bytes : Crypto → Bytes → Result Authority.Error (Option String)
unfolding get_agent_name_from_certificate
get_agent_name_from_bytes lib bytes = do
  cert ← lib.parse_certificate bytes
  get_agent_name_from_certificate lib cert

unfoldable pub req_to_endpoint : EndpointHealth → Endpoint
req_to_endpoint ep = record {
  name = ep.name;
  type = ep.type;
  configured = ep.configured;
  annotations = annotations_into ep.annotations [];
  namespaces = ep.namespaces;
  account_id = ep.account_id;
  assume_role = ep.assume_role;
}

unfoldable pub req_to_endpoints : List EndpointHealth → List Endpoint
unfolding req_to_endpoint
req_to_endpoints [] = []
req_to_endpoints (ep ∷ health) = req_to_endpoint ep ∷ req_to_endpoints health

-- The webhook is not told of accounts and roles.
unfoldable pub hook_endpoints : List EndpointHealth → List Endpoint
unfolding req_to_endpoint
hook_endpoints [] = []
hook_endpoints (ep ∷ health) =
    record (req_to_endpoint ep) { account_id = ""; assume_role = "" } ∷ hook_endpoints health

abbrev pub route_of : Connection → DirectlyConnectedRoute
route_of c = c.routes.routes c.state

abbrev pub with_route : DirectlyConnectedRoute → Connection → Connection
with_route r c = record c {
  routes = record (c.routes) { routes = update c.routes.routes c.state r };
}

unfoldable pub send_webhook : AgentTunnelServer → List EndpointHealth → Connection → Connection
unfolding hook_endpoints
send_webhook s health c =
    if s.has_hook
    then record c {
      hooks =
          c.hooks
          ++ record {
            name = (route_of c).name;
            session = (route_of c).session;
            endpoints = hook_endpoints health;
          }
            ∷ [];
    }
    else c

-- `routes.Remove(state)`, and the return.
unfoldable pub leave : Bool → Connection → Outcome
leave clean c = elim (Tracker.remove c.state c.routes) [
  | none ↦ panicked
  | some routes ↦ returned clean (record c { routes = routes })
]

-- The end of the stream: the sessions are closed first.
unfoldable pub hang_up : Bool → Connection → Outcome
unfolding leave close_all
hang_up clean c = elim (close_all c.tunnel_end.sessions c.tunnel_end.chans) [
  | none ↦ panicked
  | some (sessions, chans) ↦
      leave clean
        (record c { tunnel_end = record (c.tunnel_end) { sessions = sessions; chans = chans } })
]

module _ (s : AgentTunnelServer) (nanos : ℕ) (sends : Bool) where
  unfoldable pub on_ping : PingRequest → Connection → Outcome
  unfolding make_ping_response
  on_ping req c =
      let c' = with_route (record (route_of c) { last_ping = nanos / 1000000 }) c in
      if sends
      then continues (record c' { stream = c'.stream ++ make_ping_response nanos req ∷ [] })
      else leave false c'

  abbrev pub own_hello : MessageWrapper
  own_hello = hello (record {
    endpoints = endpoints_to_pb s.endpoints;
    version = s.version;
    hostname = "controller";
    client_certificate = [];
    agent_info = none;
  })

  -- The route as the greeting describes it.
  unfoldable pub introduce : String → Hello → DirectlyConnectedRoute → DirectlyConnectedRoute
  unfolding req_to_endpoints
  introduce name req r = record r {
    name = name;
    endpoints = req_to_endpoints req.endpoints;
    version = req.version;
    hostname = req.hostname;
    agent_info = from_pb req.agent_info;
  }

  unfoldable pub welcome : String → Hello → Connection → Outcome
  unfolding introduce send_webhook
  welcome name req c =
      let c' = with_route (introduce name req (route_of c)) c in
      let listed = record c' { routes = Tracker.add c.state c'.routes } in
      let told = send_webhook s req.endpoints listed in
      if sends
      then continues (record told { stream = told.stream ++ own_hello ∷ [] })
      else leave false told

  -- In an insecure server the name is that of the certificate in the greeting.
  unfoldable pub on_hello : Hello → Connection → Outcome
  unfolding welcome
  on_hello req c =
      if s.insecure
      then elim (get_agent_name_from_bytes s.lib req.client_certificate) [
        | ok (some name) ↦ welcome name req c
        | ok none ↦ returned false c
        | err e ↦ returned false c
        | panic ↦ panicked
      ]
      else welcome (route_of c).name req c

  unfoldable pub step : Incoming → Connection → Outcome
  unfolding on_ping on_hello hang_up
  step end_of_stream c = hang_up true c
  step receive_error c = hang_up false c
  step (received (ping_request req)) c = on_ping req c
  step (received (hello req)) c = on_hello req c
  step (received (http_tunnel_control control)) c =
      elim (handle_http_control (route_of c).name s.endpoints control c.tunnel_end) [
        | none ↦ panicked
        | some tunnel_end ↦ continues (record c { tunnel_end = tunnel_end })
      ]
  step (received (ping_response resp)) c = continues c
  step (received no_event) c = continues c

-- One turn of `handleHTTPRequests`: the request's channel is remembered before the request is sent.
unfoldable pub handle_http_request : Message → TunnelEnd → TunnelEnd × List MessageWrapper
handle_http_request (http_message value) t = (
  record t { sessions = Session.add value.cmd.id value.out t.sessions },
  make_http_tunnel_open_tunnel_request value.cmd ∷ [],
)
handle_http_request unexpected t = (t, [])

-- One turn of `handleHTTPCancelRequest`.
unfoldable pub handle_http_cancel_request : String → TunnelEnd → TunnelEnd × List MessageWrapper
handle_http_cancel_request id t =
    (record t { sessions = Session.remove id t.sessions }, make_http_tunnel_cancel_request id ∷ [])
