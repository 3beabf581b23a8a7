-- ===== src/Connection/Peer.antt =====
-- app/forwarder-controller/main.go, `getAgentNameFromContext`, and how `EventTunnel` begins: the name of an
-- agent is that of its certificate, unless the server is insecure. What gRPC knows of a peer is given.
use oes_birger.Prelude.{
  ℕ, String, List, [], ◌∷◌, Option, none, some, if◌then◌else◌, Result, ok, err, panic, ◌>>=◌,
}
use oes_birger.Channel.{open_chan, update}
use oes_birger.Authority.{Certificate, Crypto}
use oes_birger.Authority
use oes_birger.Tunnel.Cancel.{CancelRegistry}
use oes_birger.Session.{Chans, make_session_list}
use oes_birger.Route.Direct.{DirectlyConnectedRoute}
use oes_birger.Route.Tracker.{ConnectedRoutes}
use oes_birger.Connection.{Connection, AgentTunnelServer, get_agent_name_from_certificate}

-- The credentials of a peer: TLS with the verified chains, or something else.
pub data AuthInfo : Type 0 where
  tls_info : List (List Certificate) → AuthInfo
  other_info : AuthInfo

pub data Error : Type 0 where
  no_peer unexpected_credentials not_verified not_an_agent : Error
  bad_certificate : Authority.Error → Error

abbrev agent_name : Result Authority.Error (Option String) → Result Error String
agent_name (ok (some name)) = ok name
agent_name (ok none) = err not_an_agent
agent_name (err e) = err (bad_certificate e)
agent_name panic = panic

-- A peer that is not there is `none`.
unfoldable pub get_agent_name_from_context : Crypto → Option AuthInfo → Result Error String
unfolding get_agent_name_from_certificate
get_agent_name_from_context lib none = err no_peer
get_agent_name_from_context lib (some other_info) = err unexpected_credentials
get_agent_name_from_context lib (some (tls_info [])) = err not_verified
get_agent_name_from_context lib (some (tls_info ([] ∷ chains))) = err not_verified
get_agent_name_from_context lib (some (tls_info ((cert ∷ chain) ∷ chains))) =
    agent_name (get_agent_name_from_certificate lib cert)

unfoldable pub agent_route : String → String → ℕ → DirectlyConnectedRoute
agent_route name session now = record {
  name = name;
  session = session;
  endpoints = [];
  agent_info = record { annotations = [] };
  version = "";
  hostname = "";
  in_request = open_chan;
  in_cancel_request = open_chan;
  connected_at = now;
  last_ping = 0;
  last_use = 0;
}

-- Before the loop of `EventTunnel`; `state` is the reference of the new route object.
unfoldable pub open_connection :
    AgentTunnelServer
    → Option AuthInfo
    → ℕ
    → String
    → ℕ
    → Chans
    → CancelRegistry
    → ConnectedRoutes
    → Result Error Connection
unfolding get_agent_name_from_context agent_route make_session_list
open_connection s peer state session now chans cancels routes = do
  name ← if s.insecure then ok "" else get_agent_name_from_context s.lib peer
  ok (record {
    state = state;
    routes = record routes { routes = update routes.routes state (agent_route name session now) };
    tunnel_end = record {
      sessions = make_session_list;
      chans = chans;
      cancels = cancels;
      spawned = [];
      dataflow = open_chan;
    };
    stream = [];
    hooks = [];
  })
