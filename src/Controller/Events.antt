-- ===== src/Controller/Events.antt =====
-- Every event that a connection may receive is handled without a panic.
use oes_birger.Prelude.{
  ℕ, String, ◌≡◌, ◌≢◌, refl, Bool, true, false, List, [], ◌∷◌, Option, none, some, arith, Result,
  ok, err, panic, inl, inr, >>=-ne-panic, Bool-cases,
}
use oes_birger.Channel.{update}
use oes_birger.Authority.{Bytes, Certificate, Crypto, get_certificate_name_from_cert}
use oes_birger.Tunnel.Messages.{
  HttpTunnelControl, Hello, EndpointHealth, hello, ping_request, ping_response, http_tunnel_control,
  no_event,
}
use oes_birger.Route.Direct.{DirectlyConnectedRoute}
use oes_birger.Route.Tracker.{ConnectedRoutes, list_of}
use oes_birger.Route.Tracker
use oes_birger.Route.Tracker.Serving.{IsOpen, IsServing, add-IsServing}
use oes_birger.Route.Tracker.Frame.{IsKept-refl, IsKept-trans, update-IsKept, add-IsKept, count-add}
use oes_birger.Control.{TunnelEnd, handle_http_control}
use oes_birger.Connection.{
  AgentTunnelServer, Connection, BaseStatistics, Incoming, received, end_of_stream, receive_error,
  route_of, with_route, introduce, send_webhook, welcome, on_hello, step, get_agent_name_from_bytes,
  get_agent_name_from_certificate,
}
use oes_birger.Connection.Greeted.{with_route-IsServing}
use oes_birger.Connection.Health.{IsHealthy, handle_http_control-Healthily}
use oes_birger.Controller.{Phase, absent, fresh, greeted, gone, admits, is_greeting}
use oes_birger.Controller.Steps.{
  IsUnlisted, Stands, Held, Leads, NeverPanics, runs, Stands-IsOpen, leave-Leads, hang_up-Leads,
  on_ping-Leads,
}

send_webhook-hooks :
    (s : AgentTunnelServer) (health : List EndpointHealth) (c : Connection)
    → send_webhook s health c ≡ record c { hooks = (send_webhook s health c).hooks }
unfolding send_webhook
send_webhook-hooks s health c = elim (Bool-cases s.has_hook) [
  | inl e ↦ rw e refl
  | inr e ↦ rw e refl
]

name-ne-panic :
    (lib : Crypto) (cert : Certificate)
    → NeverPanics lib
    → get_certificate_name_from_cert lib cert ≢ panic
unfolding get_certificate_name_from_cert
name-ne-panic lib cert safe = of cert.organizational_unit refl
  where
    of :
        (units : List String)
        → cert.organizational_unit ≡ units
        → get_certificate_name_from_cert lib cert ≢ panic
    of [] e p = cc (rw e at p)
    of (unit ∷ units) e p = safe.unmarshals unit (rw e at p)

get_agent_name_from_bytes-ne-panic :
    (lib : Crypto) (bytes : Bytes) → NeverPanics lib → get_agent_name_from_bytes lib bytes ≢ panic
unfolding get_agent_name_from_bytes get_agent_name_from_certificate
get_agent_name_from_bytes-ne-panic lib bytes safe =
    >>=-ne-panic (lib.parse_certificate bytes) _ (safe.reads bytes) (λ cert.
      >>=-ne-panic (get_certificate_name_from_cert lib cert) _ (name-ne-panic lib cert safe)
        (λ names p. cc p))

add-Stands :
    (p : ℕ) (s : ConnectedRoutes)
    → IsOpen (s.routes p)
    → IsUnlisted s p
    → Stands greeted (Tracker.add p s) p
unfolding Tracker.add
add-Stands p s o unlisted = (o, count-add p s unlisted)

-- The route is described anew, on channels that are open, and is listed.
greet-Held :
    (r : DirectlyConnectedRoute) (c : Connection) (hooks : List BaseStatistics)
    → IsServing c.routes
    → IsHealthy c.tunnel_end
    → IsUnlisted c.routes c.state
    → IsOpen r
    → Held greeted c.routes c.state (record (with_route r c) {
      routes = Tracker.add c.state (with_route r c).routes;
      hooks = hooks;
    })
unfolding update list_of
greet-Held r c hooks v h unlisted o =
    let s : ConnectedRoutes = (with_route r c).routes in
    let open_there : IsOpen (s.routes c.state) = ground arith in
    record {
      serving =
          add-IsServing c.state s (with_route-IsServing r c v unlisted) open_there (unlisted _);
      healthy = h;
      others = λ q other.
          IsKept-trans (update-IsKept c.state r c.routes q other) (add-IsKept c.state s q other);
      own = add-Stands c.state s open_there unlisted;
    }

module _ (s : AgentTunnelServer) (nanos : ℕ) (sends : Bool) where
  welcome-Leads :
      (name : String) (req : Hello) (c : Connection)
      → IsServing c.routes
      → IsHealthy c.tunnel_end
      → Stands fresh c.routes c.state
      → Leads greeted c.routes c.state (welcome s nanos sends name req c)
  unfolding welcome introduce
  welcome-Leads name req c v h (o, unlisted) = answered sends
    where
      r : DirectlyConnectedRoute
      r = introduce s nanos sends name req (route_of c)

      listed : Connection
      listed = record (with_route r c) { routes = Tracker.add c.state (with_route r c).routes }

      told : Connection
      told = record listed { hooks = (send_webhook s req.endpoints listed).hooks }

      held : Held greeted c.routes c.state told
      held = greet-Held r c _ v h unlisted o

      answered : (sends : Bool) → Leads greeted c.routes c.state (welcome s nanos sends name req c)
      answered true = rw (send_webhook-hooks s req.endpoints listed) (record {
        serving = held.serving;
        healthy = held.healthy;
        others = held.others;
        own = held.own;
      })
      answered false =
          rw (send_webhook-hooks s req.endpoints listed) (
            leave-Leads false greeted c.routes told held.serving held.own.0 held.healthy
              held.others)

  on_hello-Leads :
      (req : Hello) (c : Connection)
      → NeverPanics s.lib
      → IsServing c.routes
      → IsHealthy c.tunnel_end
      → Stands fresh c.routes c.state
      → Leads greeted c.routes c.state (on_hello s nanos sends req c)
  unfolding on_hello
  on_hello-Leads req c safe v h stands = secured s.insecure refl
    where
      refused : Held gone c.routes c.state c
      refused = record {
        serving = v;
        healthy = h;
        others = λ q _. IsKept-refl q c.routes;
        own = stands.1;
      }

      named :
          (name : Result _ (Option String))
          → get_agent_name_from_bytes s.lib req.client_certificate ≡ name
          → s.insecure ≡ true
          → Leads greeted c.routes c.state (on_hello s nanos sends req c)
      named (ok (some name)) e i = rw (i, e, on_hello) (welcome-Leads name req c v h stands)
      named (ok none) e i = rw (i, e, on_hello) refused
      named (err cause) e i = rw (i, e, on_hello) refused
      named panic e i =
          absurd (get_agent_name_from_bytes-ne-panic s.lib req.client_certificate safe e)

      secured :
          (insecure : Bool)
          → s.insecure ≡ insecure
          → Leads greeted c.routes c.state (on_hello s nanos sends req c)
      secured true i = named (get_agent_name_from_bytes s.lib req.client_certificate) refl i
      secured false i = rw i (welcome-Leads (route_of c).name req c v h stands)

  control-Leads :
      (ph : Phase) (control : HttpTunnelControl) (c : Connection)
      → IsServing c.routes
      → IsHealthy c.tunnel_end
      → Stands ph c.routes c.state
      → Leads ph c.routes c.state (step s nanos sends (received (http_tunnel_control control)) c)
  unfolding step
  control-Leads ph control c v h stands =
      handled (handle_http_control (route_of c).name s.endpoints control c.tunnel_end) refl
    where
      handled :
          (t : Option TunnelEnd)
          → handle_http_control (route_of c).name s.endpoints control c.tunnel_end ≡ t
          → Leads ph c.routes c.state
              (step s nanos sends (received (http_tunnel_control control)) c)
      handled none e = absurd (
          rw e at
            (handle_http_control-Healthily (route_of c).name s.endpoints control c.tunnel_end h))
      handled (some t) e =
          rw (e, step)
            (record {
              serving = v;
              healthy = rw e at (
                  handle_http_control-Healthily (route_of c).name s.endpoints control c.tunnel_end
                    h);
              others = λ q _. IsKept-refl q c.routes;
              own = stands;
            })

  -- Any event on a connection that runs.
  running-Leads :
      (ph : Phase) (m : Incoming) (c : Connection)
      → runs ph ≡ true
      → is_greeting m ≡ false
      → IsServing c.routes
      → IsHealthy c.tunnel_end
      → Stands ph c.routes c.state
      → Leads ph c.routes c.state (step s nanos sends m c)
  unfolding step
  running-Leads ph end_of_stream c r other v h stands =
      hang_up-Leads true ph c v (Stands-IsOpen ph c.routes c.state r stands) h
  running-Leads ph receive_error c r other v h stands =
      hang_up-Leads false ph c v (Stands-IsOpen ph c.routes c.state r stands) h
  running-Leads ph (received (ping_request req)) c r other v h stands =
      on_ping-Leads s nanos sends ph req c r v h stands
  running-Leads ph (received (hello req)) c r other v h stands = cc other
  running-Leads ph (received (http_tunnel_control control)) c r other v h stands =
      control-Leads ph control c v h stands
  running-Leads ph (received (ping_response resp)) c r other v h stands = record {
    serving = v;
    healthy = h;
    others = λ q _. IsKept-refl q c.routes;
    own = stands;
  }
  running-Leads ph (received no_event) c r other v h stands = record {
    serving = v;
    healthy = h;
    others = λ q _. IsKept-refl q c.routes;
    own = stands;
  }

  greeting-Leads :
      (m : Incoming) (c : Connection)
      → is_greeting m ≡ true
      → NeverPanics s.lib
      → IsServing c.routes
      → IsHealthy c.tunnel_end
      → Stands fresh c.routes c.state
      → Leads greeted c.routes c.state (step s nanos sends m c)
  unfolding step
  greeting-Leads (received (hello req)) c g safe v h stands = on_hello-Leads req c safe v h stands
  greeting-Leads m c g safe v h stands = cc g

  -- Whatever may arrive on a connection, among routes that serve, the handler does not panic: the
  -- connection stands in its next phase, or is over, and the other routes are kept.
  pub step-Leads :
      (ph ph' : Phase) (m : Incoming) (c : Connection)
      → admits ph m ≡ some ph'
      → NeverPanics s.lib
      → IsServing c.routes
      → IsHealthy c.tunnel_end
      → Stands ph c.routes c.state
      → Leads ph' c.routes c.state (step s nanos sends m c)
  unfolding step
  step-Leads absent ph' m c a safe v h stands = cc a
  step-Leads gone ph' m c a safe v h stands = cc a
  step-Leads fresh ph' m c a safe v h stands = elim (Bool-cases (is_greeting m)) [
    | inl g ↦ let e : ph' ≡ greeted = cc (rw g at a) in rw e (greeting-Leads m c g safe v h stands)
    | inr g ↦
        let e : ph' ≡ fresh = cc (rw g at a) in rw e (running-Leads fresh m c refl g v h stands)
  ]
  step-Leads greeted ph' m c a safe v h stands = elim (Bool-cases (is_greeting m)) [
    | inl g ↦ cc (rw g at a)
    | inr g ↦
        let e : ph' ≡ greeted = cc (rw g at a) in rw e (running-Leads greeted m c refl g v h stands)
  ]
