-- ===== src/Connection/Agent.antt =====
-- app/forwarder-agent/grpc.go: the agent's end of its connection to the controller. The state is that of
-- the controller's end, of which the agent uses no webhook; CloseAll and Remove are called in the same
-- order at both ends. `sends` says whether a send on the stream succeeds.
pub mod Ended
use oes_birger.Prelude.{
  ℕ, ◌/◌, String, Bool, true, false, not, List, [], ◌∷◌, ◌++◌, Option, none, some, if◌then◌else◌,
  Result, ok, err, panic, ◌>>=◌,
}
use oes_birger.Channel.{open_chan, close, update}
use oes_birger.Authority.{Bytes, KeyPair, leaf}
use oes_birger.Authority
use oes_birger.Tunnel.Messages.{
  MessageWrapper, PingRequest, Hello, EndpointHealth, ping_request, ping_response, hello,
  http_tunnel_control, no_event, make_ping_response,
}
use oes_birger.Tunnel.AgentInfo.{AgentInfo, to_pb}
use oes_birger.Session.{Chans, make_session_list}
use oes_birger.Service.Endpoints.{ConfiguredEndpoint, endpoints_to_pb}
use oes_birger.Route.Direct.{DirectlyConnectedRoute, Endpoint, Message}
use oes_birger.Route.Tracker.{ConnectedRoutes}
use oes_birger.Route.Tracker
use oes_birger.Control.{TunnelEnd, agent_handle_http_control}
use oes_birger.Tunnel.Cancel.{CancelRegistry}
use oes_birger.Connection.{
  Connection, Incoming, received, end_of_stream, receive_error, Outcome, continues, returned,
  panicked, route_of, with_route, leave, hang_up, handle_http_request, handle_http_cancel_request,
}

-- The tunnel goes on, or `runTunnel` has returned, or a `Fatal` has ended the process.
pub data AgentOutcome : Type 0 where
  goes_on : Connection → AgentOutcome
  ended : Connection → AgentOutcome
  exited : AgentOutcome
  crashed : AgentOutcome

-- The greeting, with the leaf of the agent's certificate.
unfoldable pub agent_hello :
    String
    → String
    → AgentInfo
    → List ConfiguredEndpoint
    → KeyPair
    → Result Authority.Error MessageWrapper
unfolding endpoints_to_pb
agent_hello version hostname agent_info endpoints clcert = do
  certificate ← leaf clcert.certificate
  ok (
      hello (record {
        endpoints = endpoints_to_pb endpoints;
        version = version;
        hostname = hostname;
        client_certificate = certificate;
        agent_info = some (to_pb agent_info);
      }))

-- The route object that stands for the controller.
unfoldable pub controller_route : String → ℕ → DirectlyConnectedRoute
controller_route session now = record {
  name = "controller";
  session = session;
  endpoints = [];
  agent_info = record { annotations = [] };
  version = "";
  hostname = "";
  in_request = open_chan;
  in_cancel_request = open_chan;
  connected_at = now;
  last_ping = 0;
  last_use = 0;
}

-- The tunnel once the greeting is sent; `state` is the reference of the new route object.
unfoldable pub start_tunnel :
    ℕ → String → ℕ → Chans → CancelRegistry → ConnectedRoutes → MessageWrapper → Connection
unfolding controller_route make_session_list
start_tunnel state session now chans cancels routes greeting = record {
  state = state;
  routes = record routes { routes = update routes.routes state (controller_route session now) };
  tunnel_end = record {
    sessions = make_session_list;
    chans = chans;
    cancels = cancels;
    spawned = [];
    dataflow = open_chan;
  };
  stream = greeting ∷ [];
  hooks = [];
}

-- One turn of `tickerPinger` and of `dataflowHandler`: what is sent, or the end of the process.
unfoldable pub ticker_ping : ℕ → Bool → Connection → AgentOutcome
ticker_ping ts sends c =
    if sends
    then goes_on (record c { stream = c.stream ++ ping_request (record { ts = ts }) ∷ [] })
    else exited

unfoldable pub forward_dataflow : MessageWrapper → Bool → Connection → AgentOutcome
forward_dataflow message sends c =
    if sends then goes_on (record c { stream = c.stream ++ message ∷ [] }) else exited

unfoldable pub agent_handle_http_request : Message → TunnelEnd → TunnelEnd × List MessageWrapper
unfolding handle_http_request
agent_handle_http_request = handle_http_request

unfoldable pub agent_handle_http_cancel_request :
    String → TunnelEnd → TunnelEnd × List MessageWrapper
unfolding handle_http_cancel_request
agent_handle_http_cancel_request = handle_http_cancel_request

-- An endpoint of the controller; its annotations are not taken over.
unfoldable pub agent_endpoint : EndpointHealth → Endpoint
agent_endpoint ep = record {
  name = ep.name;
  type = ep.type;
  configured = ep.configured;
  annotations = [];
  namespaces = ep.namespaces;
  account_id = ep.account_id;
  assume_role = ep.assume_role;
}

unfoldable pub agent_endpoints : List EndpointHealth → List Endpoint
unfolding agent_endpoint
agent_endpoints [] = []
agent_endpoints (ep ∷ health) = agent_endpoint ep ∷ agent_endpoints health

unfoldable pub agent_introduce : Hello → DirectlyConnectedRoute → DirectlyConnectedRoute
unfolding agent_endpoints
agent_introduce req r = record r {
  endpoints = agent_endpoints req.endpoints;
  version = req.version;
  hostname = req.hostname;
}

-- Behind `<-waitc`: the data flow is closed, and the function returns.
unfoldable pub finish : Connection → AgentOutcome
unfolding close
finish c = elim (close c.tunnel_end.dataflow) [
  | none ↦ crashed
  | some dataflow ↦ ended (record c { tunnel_end = record (c.tunnel_end) { dataflow = dataflow } })
]

-- What follows the loop: `waitc` is closed where the loop returned, a receive error is fatal.
unfoldable pub after_loop : Outcome → AgentOutcome
unfolding finish
after_loop (continues c) = goes_on c
after_loop (returned true c) = finish c
after_loop (returned false c) = exited
after_loop panicked = crashed

module _ (endpoints : List ConfiguredEndpoint) (nanos : ℕ) (sends : Bool) where
  unfoldable pub agent_on_ping : PingRequest → Connection → AgentOutcome
  unfolding make_ping_response after_loop leave
  agent_on_ping req c =
      let c' = with_route (record (route_of c) { last_ping = nanos / 1000000 }) c in
      if sends
      then goes_on (record c' { stream = c'.stream ++ make_ping_response nanos req ∷ [] })
      else after_loop (leave true c')

  unfoldable pub agent_step : Incoming → Connection → AgentOutcome
  unfolding agent_on_ping after_loop hang_up agent_introduce agent_handle_http_control
  agent_step end_of_stream c = after_loop (hang_up true c)
  agent_step receive_error c = after_loop (hang_up false c)
  agent_step (received (ping_request req)) c = agent_on_ping req c
  agent_step (received (hello req)) c =
      let c' = with_route (agent_introduce req (route_of c)) c in
      goes_on (record c' { routes = Tracker.add c.state c'.routes })
  agent_step (received (http_tunnel_control control)) c =
      elim (agent_handle_http_control endpoints control c.tunnel_end) [
        | none ↦ crashed
        | some tunnel_end ↦ goes_on (record c { tunnel_end = tunnel_end })
      ]
  agent_step (received (ping_response resp)) c = goes_on c
  agent_step (received no_event) c = goes_on c
