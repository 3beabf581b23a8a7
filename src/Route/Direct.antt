-- ===== src/Route/Direct.antt =====
-- internal/tunnelroute/directconnect.go, endpoint.go, search.go and httpmessage.go: a route that is
-- directly connected, and what it offers. The channels of a route are part of it, since nothing
-- else holds them but the two goroutines that drain them.
use oes_birger.Prelude.{
  ℕ, String, ◌==◌, Bool, false, ◌&&◌, ◌||◌, List, [], ◌∷◌, Option, none, some, if◌then◌else◌,
}
use oes_birger.Channel.{Chan, send, close}
use oes_birger.Tunnel.Messages.{OpenHttpTunnelRequest}
use oes_birger.Tunnel.AgentInfo.{AgentInfo}

pub record Endpoint : Type 0 where
  pub name : String
  pub type : String
  pub configured : Bool
  pub annotations : List (String × String)
  pub namespaces : List String
  pub account_id : String
  pub assume_role : String

-- `out` is the reference of the channel for the response.
pub record HttpMessage : Type 0 where
  pub out : ℕ
  pub cmd : OpenHttpTunnelRequest

-- What is sent as `interface{}`.
pub data Message : Type 0 where
  http_message : HttpMessage → Message
  unexpected : Message

pub record DirectlyConnectedRoute : Type 0 where
  pub name : String
  pub session : String
  pub endpoints : List Endpoint
  pub agent_info : AgentInfo
  pub version : String
  pub hostname : String
  pub in_request : Chan Message
  pub in_cancel_request : Chan String
  pub connected_at : ℕ
  pub last_ping : ℕ
  pub last_use : ℕ

-- `Close`; `none` is a panic.
unfoldable pub close_route : DirectlyConnectedRoute → Option DirectlyConnectedRoute
unfolding close
close_route s = elim (close s.in_request) [
  | none ↦ none
  | some requests ↦ elim (close s.in_cancel_request) [
    | none ↦ none
    | some cancels ↦ some (record s { in_request = requests; in_cancel_request = cancels })
  ]
]

-- `Send`, with the session that it returns.
unfoldable pub send_route :
    Message → DirectlyConnectedRoute → Option (DirectlyConnectedRoute × String)
unfolding send
send_route message s = elim (send message s.in_request) [
  | none ↦ none
  | some requests ↦ some (record s { in_request = requests }, s.session)
]

-- `Cancel`.
unfoldable pub cancel_route : String → DirectlyConnectedRoute → Option DirectlyConnectedRoute
unfolding send
cancel_route id s = elim (send id s.in_cancel_request) [
  | none ↦ none
  | some cancels ↦ some (record s { in_cancel_request = cancels })
]

-- The loop of `HasEndpoint`: the first endpoint of that type and name decides.
unfoldable pub has_configured : String → String → List Endpoint → Bool
has_configured endpoint_type endpoint_name [] = false
has_configured endpoint_type endpoint_name (ep ∷ endpoints) =
    if ep.type == endpoint_type && ep.name == endpoint_name
    then ep.configured
    else has_configured endpoint_type endpoint_name endpoints

unfoldable pub has_endpoint : String → String → DirectlyConnectedRoute → Bool
unfolding has_configured
has_endpoint endpoint_type endpoint_name s = has_configured endpoint_type endpoint_name s.endpoints

pub record Statistics : Type 0 where
  pub name : String
  pub session : String
  pub connection_type : String
  pub endpoints : List Endpoint
  pub version : String
  pub hostname : String
  pub connected_at : ℕ
  pub last_ping : ℕ
  pub last_use : ℕ
  pub agent_info : AgentInfo

unfoldable pub get_statistics : DirectlyConnectedRoute → Statistics
get_statistics s = record {
  name = s.name;
  session = s.session;
  connection_type = "direct";
  endpoints = s.endpoints;
  version = s.version;
  hostname = s.hostname;
  connected_at = s.connected_at;
  last_ping = s.last_ping;
  last_use = s.last_use;
  agent_info = s.agent_info;
}

pub record Search : Type 0 where
  pub name : String
  pub endpoint_type : String
  pub endpoint_name : String
  pub session : String

-- An empty session matches any route of the name.
unfoldable pub matches_route : Search → DirectlyConnectedRoute → Bool
matches_route a t = a.name == t.name && (a.session == "" || a.session == t.session)
