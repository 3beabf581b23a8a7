-- ===== src/Connection/Twice.antt =====
-- An agent that greets twice on one connection: what is left of it when the connection ends.
use oes_birger.Prelude.{
  ℕ, String, ◌≡◌, refl, ap, ◌∙◌, sym, subst, Bool, true, false, arith, some, [], panic,
}
use oes_birger.Channel.{update}
use oes_birger.Tunnel.Messages.{Hello, hello}
use oes_birger.Session.CloseAll.{IsOpenOnce, close_all_lem}
use oes_birger.Route.Direct.{DirectlyConnectedRoute, Message, Search, has_endpoint}
use oes_birger.Route.Tracker.{ConnectedRoutes, add, remove, list_of}
use oes_birger.Route.Tracker
use oes_birger.Route.Tracker.Serving.{IsOpen}
use oes_birger.Route.Tracker.Greeting.{send_after_second_greeting}
use oes_birger.Connection.{
  AgentTunnelServer, Connection, received, end_of_stream, continues, returned, route_of, introduce,
  send_webhook, welcome, hang_up, leave, step,
}
use oes_birger.Control.{TunnelEnd}
use oes_birger.Connection.Greeted.{
  announced, routes-send_webhook, by_name, has_configured-req_to_endpoints,
}
use oes_birger.Connection.End.{update_self}

-- The routes with the store changed.
abbrev with_store : (ℕ → DirectlyConnectedRoute) → ConnectedRoutes → ConnectedRoutes
with_store routes s = record s { routes = routes }

-- A route is added under its name: the rest of the store does not matter.
add-with_store :
    (state : ℕ) (routes : ℕ → DirectlyConnectedRoute) (s : ConnectedRoutes)
    → (routes state).name ≡ (s.routes state).name
    → with_store routes (add state s) ≡ add state (with_store routes s)
unfolding add list_of
add-with_store state routes s same = rw same refl

-- The route as the second greeting of a secure server leaves it.
abbrev greeted_route : AgentTunnelServer → ℕ → Hello → Connection → DirectlyConnectedRoute
greeted_route s nanos req c = introduce s nanos true (route_of c).name req (route_of c)

abbrev greeted_store : AgentTunnelServer → ℕ → Hello → Connection → ℕ → DirectlyConnectedRoute
greeted_store s nanos req c = update c.routes.routes c.state (greeted_route s nanos req c)

-- A greeting, for the part of the connection that its end is about.
record Welcomed (s : AgentTunnelServer) (nanos : ℕ) (req : Hello) (c : Connection) : Type 0 where
  next : Connection
  stepped : step s nanos true (received (hello req)) c ≡ continues next
  state : next.state ≡ c.state
  tunnel_end : next.tunnel_end ≡ c.tunnel_end
  routes : next.routes ≡ add c.state (with_store (greeted_store s nanos req c) c.routes)

welcomed :
    (s : AgentTunnelServer) (nanos : ℕ) (req : Hello) (c : Connection)
    → s.insecure ≡ false
    → Welcomed s nanos req c
unfolding step welcome send_webhook
welcomed s nanos req c secure = record {
  next = _;
  stepped = by_name s nanos req c secure;
  state = ground arith;
  tunnel_end = ground arith;
  routes = routes-send_webhook s req.endpoints _;
}

route_of-Welcomed :
    (s : AgentTunnelServer) (nanos : ℕ) (req : Hello) (c : Connection) (w : Welcomed s nanos req c)
    → route_of w.next ≡ greeted_route s nanos req c
unfolding add
route_of-Welcomed s nanos req c w =
    ap (λ (x : ConnectedRoutes). x.routes w.next.state) w.routes
    ∙ ap (greeted_store s nanos req c) w.state
    ∙ update_self c.routes.routes c.state (greeted_route s nanos req c)

-- The end of the stream, where the sessions can be closed and the route can be removed.
ended :
    (s : AgentTunnelServer) (nanos : ℕ) (sends : Bool) (c : Connection) (routes : ConnectedRoutes)
    → IsOpenOnce c.tunnel_end.chans c.tunnel_end.sessions.m
    → remove c.state c.routes ≡ some routes
    → (c' : Connection) × (step s nanos sends end_of_stream c ≡ returned true c')
      × (c'.routes ≡ routes)
unfolding step hang_up leave
ended s nanos sends c routes once removed =
    let (chans, e, h) = close_all_lem c.tunnel_end.sessions c.tunnel_end.chans once in
    (
      record c {
        routes = routes;
        tunnel_end = record (c.tunnel_end) { sessions = record { m = [] }; chans = chans };
      },
      rw (e, hang_up, leave) (rw (removed, leave) refl),
      refl,
    )

module _ (s : AgentTunnelServer) (first_at second_at : ℕ) (first second : Hello) (c : Connection)
    (w₁ : Welcomed s first_at first c) (w₂ : Welcomed s second_at second w₁.next) where
  -- The store after both.
  store : ℕ → DirectlyConnectedRoute
  store = greeted_store s second_at second w₁.next

  store-state : store c.state ≡ greeted_route s second_at second w₁.next
  unfolding store
  store-state =
      ap store (sym w₁.state)
      ∙ update_self w₁.next.routes.routes w₁.next.state (greeted_route s second_at second w₁.next)

  store-name : (store c.state).name ≡ (route_of c).name
  unfolding introduce
  store-name =
      ap (λ (r : DirectlyConnectedRoute). r.name) store-state
      ∙ ap (λ (r : DirectlyConnectedRoute). r.name) (route_of-Welcomed s first_at first c w₁)

  store-IsOpen : IsOpen (route_of c) → IsOpen (store c.state)
  unfolding introduce
  store-IsOpen o =
      subst IsOpen (sym store-state)
        (subst IsOpen (sym (route_of-Welcomed s first_at first c w₁)) o)

  twice : w₂.next.routes ≡ add c.state (add c.state (with_store store c.routes))
  unfolding store introduce add
  twice =
      let first_store = greeted_store s first_at first c in
      let named : (store c.state).name ≡ (first_store c.state).name =
        store-name
        ∙ ap (λ (r : DirectlyConnectedRoute). r.name)
            (sym (update_self c.routes.routes c.state (greeted_route s first_at first c))) in
      w₂.routes
      ∙ ap (λ p. add p (with_store store w₁.next.routes)) w₁.state
      ∙ ap (λ x. add c.state (with_store store x)) w₁.routes
      ∙ ap (add c.state) (add-with_store c.state store (with_store first_store c.routes) named)

  store-has_endpoint :
      (type name : String)
      → announced type name second.endpoints ≡ true
      → has_endpoint type name (store c.state) ≡ true
  unfolding introduce has_endpoint
  store-has_endpoint type name a =
      ap (has_endpoint type name) store-state
      ∙ has_configured-req_to_endpoints type name second.endpoints
      ∙ a

-- When an agent greets a secure server twice on an open connection, and then its stream ends, where the sessions
-- are open and have a channel each, all three events are handled without a panic and without an error. But
-- the route is still listed then, with its channels closed: for some draw, the next request for an endpoint
-- that the second greeting announced as configured, by its first entry, is sent to it and panics.
pub step-greeted_twice :
    (s : AgentTunnelServer) (first_at second_at ended_at : ℕ) (sends : Bool) (first second : Hello)
    (c : Connection) (type name session : String) (message : Message)
    → s.insecure ≡ false
    → IsOpen (route_of c)
    → IsOpenOnce c.tunnel_end.chans c.tunnel_end.sessions.m
    → announced type name second.endpoints ≡ true
    → (c₁ : Connection) × (c₂ : Connection) × (c₃ : Connection) × (step s first_at true
          (received (hello first))
          c
        ≡ continues c₁)
      × (step s second_at true (received (hello second)) c₁ ≡ continues c₂)
      × (step s ended_at sends end_of_stream c₂ ≡ returned true c₃)
      × ((draw : ℕ) × (Tracker.send draw
              (record {
                name = (route_of c).name;
                endpoint_type = type;
                endpoint_name = name;
                session = session;
              })
              message
              c₃.routes
            ≡ panic))
step-greeted_twice s first_at second_at ended_at sends first second c type name session message
      secure o once a =
    let w₁ = welcomed s first_at first c secure in
    let w₂ = welcomed s second_at second w₁.next secure in
    let search : Search = record {
      name = (route_of c).name;
      endpoint_type = type;
      endpoint_name = name;
      session = session;
    } in
    let both = store s first_at second_at first second c w₁ w₂ in
    let (routes, removed, draw, panics) =
      send_after_second_greeting c.state (with_store both c.routes)
        (store-IsOpen s first_at second_at first second c w₁ w₂ o) search message
        (sym (store-name s first_at second_at first second c w₁ w₂))
        (store-has_endpoint s first_at second_at first second c w₁ w₂ type name a) in
    let e : remove w₂.next.state w₂.next.routes ≡ some routes =
      ap (λ p. remove p w₂.next.routes) (w₂.state ∙ w₁.state)
      ∙ ap (remove c.state) (twice s first_at second_at first second c w₁ w₂)
      ∙ removed in
    let once' : IsOpenOnce w₂.next.tunnel_end.chans w₂.next.tunnel_end.sessions.m =
      subst (λ (t : TunnelEnd). IsOpenOnce t.chans t.sessions.m)
        (sym (w₂.tunnel_end ∙ w₁.tunnel_end)) once in
    let (c₃, stepped, left) = ended s ended_at sends w₂.next routes once' e in
    (
      w₁.next,
      w₂.next,
      c₃,
      w₁.stepped,
      w₂.stepped,
      stepped,
      (draw, ap (Tracker.send draw search message) left ∙ panics),
    )
