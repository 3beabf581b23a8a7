-- ===== src/Connection/End.antt =====
-- The end of a connection.
use oes_birger.Prelude.{ℕ, ◌/◌, String, ◌≡◌, refl, Bool, true, false, [], arith, if◌then◌else◌, not}
use oes_birger.Channel.{update}
use oes_birger.Tunnel.Messages.{PingRequest, ping_request}
use oes_birger.Route.Direct.{DirectlyConnectedRoute}
use oes_birger.Session.CloseAll.{IsOpenOnce, after_close, close_all_lem}
use oes_birger.Route.Tracker.{list_of}
use oes_birger.Route.Tracker.Members.{count}
use oes_birger.Route.Tracker.Serving.{IsOpen, IsServing, remove-IsServing, update-IsServing}
use oes_birger.Connection.{
  AgentTunnelServer, Connection, received, with_route, on_ping, end_of_stream, receive_error,
  returned, route_of, leave, hang_up, step,
}

pub update_self :
    (store : ℕ → DirectlyConnectedRoute) (p : ℕ) (r : DirectlyConnectedRoute)
    → update store p r p ≡ r
unfolding update
update_self store p r = ground arith

-- What is left of the connection.
pub record HasLeft (c c' : Connection) : Type 0 where
  pub serving : IsServing c'.routes
  pub unlisted : (name : String) → count c.state (list_of name c'.routes) ≡ 0
  pub no_sessions : c'.tunnel_end.sessions.m ≡ []
  pub chans :
      (d : ℕ) → c'.tunnel_end.chans d ≡ after_close c.tunnel_end.chans c.tunnel_end.sessions.m d

pub hang_up-HasLeft :
    (clean : Bool) (c : Connection)
    → IsServing c.routes
    → IsOpen (route_of c)
    → IsOpenOnce c.tunnel_end.chans c.tunnel_end.sessions.m
    → (c' : Connection) × (hang_up clean c ≡ returned clean c') × HasLeft c c'
unfolding hang_up leave
hang_up-HasLeft clean c v o once =
    let (chans, e, h) = close_all_lem c.tunnel_end.sessions c.tunnel_end.chans once in
    let (routes, f, serving, unlisted) = remove-IsServing c.state c.routes v o in
    (
      record c {
        routes = routes;
        tunnel_end = record (c.tunnel_end) { sessions = record { m = [] }; chans = chans };
      },
      rw (e, hang_up, leave) (rw (f, leave) refl),
      record { serving = serving; unlisted = unlisted; no_sessions = refl; chans = h },
    )

-- When the stream ends or fails, on a connection whose route is open, among routes that serve, and
-- whose sessions are open and have a channel each, the handler returns without a panic, with an error
-- just if the stream failed. Every request that waits has its channel closed, the other channels are
-- left alone, no session is left, the route is in no list, and the other routes serve.
pub step-HasLeft :
    (s : AgentTunnelServer) (nanos : ℕ) (sends : Bool) (failed : Bool) (c : Connection)
    → IsServing c.routes
    → IsOpen (route_of c)
    → IsOpenOnce c.tunnel_end.chans c.tunnel_end.sessions.m
    → (c' : Connection) × (step s nanos sends (if failed then receive_error else end_of_stream) c
        ≡ returned (not failed) c')
      × HasLeft c c'
unfolding step
step-HasLeft s nanos sends true c v o once = hang_up-HasLeft false c v o once
step-HasLeft s nanos sends false c v o once = hang_up-HasLeft true c v o once

-- When the answer to a ping cannot be sent, on a connection whose route is open, among routes that
-- serve, the handler returns with an error and the route is in no list; but the sessions and their
-- channels are left as they were, so that a request that waits on one of them is never told.
pub step-ping_unanswered :
    (s : AgentTunnelServer) (nanos : ℕ) (req : PingRequest) (c : Connection)
    → IsServing c.routes
    → IsOpen (route_of c)
    → (c' : Connection) × (step s nanos false (received (ping_request req)) c ≡ returned false c')
      × ((name : String) → count c.state (list_of name c'.routes) ≡ 0)
      × (c'.tunnel_end ≡ c.tunnel_end)
unfolding step on_ping leave
step-ping_unanswered s nanos req c v o =
    let r : DirectlyConnectedRoute = record (route_of c) { last_ping = nanos / 1000000 } in
    let c₁ = with_route r c in
    let v₁ = update-IsServing c.routes c.state r v refl o in
    let same : route_of c₁ ≡ r = update_self c.routes.routes c.state r in
    let (routes, e, serving, unlisted) = remove-IsServing c.state c₁.routes v₁ (rw same o) in
    (record c₁ { routes = routes }, rw (e, leave) refl, unlisted, refl)
