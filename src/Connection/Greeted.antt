-- ===== src/Connection/Greeted.antt =====
-- The greeting of an agent.
use oes_birger.Prelude.{
  ℕ, String, ◌==◌, ◌≡◌, refl, Bool, true, false, ◌&&◌, List, [], ◌∷◌, arith, if◌then◌else◌,
}
use oes_birger.Channel.{update}
use oes_birger.Tunnel.Messages.{Hello, EndpointHealth}
use oes_birger.Route.Direct.{DirectlyConnectedRoute, has_configured}
use oes_birger.Route.Tracker.{ConnectedRoutes, list_of}
use oes_birger.Route.Tracker
use oes_birger.Route.Tracker.Members.{count}
use oes_birger.Route.Tracker.Serving.{IsOpen, IsServing}
use oes_birger.Connection.{
  AgentTunnelServer, Connection, route_of, with_route, req_to_endpoint, req_to_endpoints, introduce,
  send_webhook, welcome, on_hello,
}

-- The first entry for a type and name.
abbrev pub announced : String → String → List EndpointHealth → Bool
announced type name [] = false
announced type name (ep ∷ health) =
    if ep.type == type && ep.name == name then ep.configured else announced type name health

pub has_configured-req_to_endpoints :
    (type name : String) (health : List EndpointHealth)
    → has_configured type name (req_to_endpoints health) ≡ announced type name health
unfolding has_configured req_to_endpoints req_to_endpoint
has_configured-req_to_endpoints type name [] = refl
has_configured-req_to_endpoints type name (ep ∷ health) =
    ground (arith, has_configured-req_to_endpoints type name health)

-- Changing the name or the endpoints of an unlisted route, but not its channels, lets the others serve.
pub with_route-IsServing :
    (r : DirectlyConnectedRoute) (c : Connection)
    → IsServing c.routes
    → ((n : String) → count c.state (list_of n c.routes) ≡ 0)
    → IsServing (with_route r c).routes
unfolding update list_of
with_route-IsServing r c v unlisted n ref = ground (arith, v n ref, unlisted n)

-- Whatever the webhook is told, the routes stay as they are.
pub routes-send_webhook :
    (s : AgentTunnelServer) (health : List EndpointHealth) (c : Connection)
    → (send_webhook s health c).routes ≡ c.routes
unfolding send_webhook
routes-send_webhook s health c = ground arith

module _ (s : AgentTunnelServer) (nanos : ℕ) (req : Hello) (c : Connection) (v : IsServing c.routes)
    (o : IsOpen (route_of c)) (unlisted : (n : String) → count c.state (list_of n c.routes) ≡ 0)
    (agent_name : String) where
  introduced : Connection
  introduced = with_route (introduce s nanos true agent_name req (route_of c)) c

  greeted : ConnectedRoutes
  greeted = Tracker.add c.state introduced.routes

pub by_name :
    (s : AgentTunnelServer) (nanos : ℕ) (req : Hello) (c : Connection)
    → s.insecure ≡ false
    → on_hello s nanos true req c ≡ welcome s nanos true (route_of c).name req c
unfolding on_hello
by_name s nanos req c secure = ground arith
