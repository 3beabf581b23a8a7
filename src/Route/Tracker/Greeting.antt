-- ===== src/Route/Tracker/Greeting.antt =====
-- What becomes of the routes when an agent greets twice on one connection: `EventTunnel` adds the
-- route at each greeting, and removes it once, when the connection ends.
use oes_birger.Prelude.{
  ℕ, suc, ◌≡◌, refl, ap, ◌∙◌, true, [], ◌∷◌, Memᴰ, none, some, eq_iff, eq_refl, arith, panic,
}
use oes_birger.Channel.{update}
use oes_birger.Channel
use oes_birger.Route.Direct.{
  DirectlyConnectedRoute, Message, Search, close_route, send_route, has_endpoint,
}
use oes_birger.Route.Tracker.{ConnectedRoutes, list_of, add, take_out, remove, send}
use oes_birger.Route.Tracker.Find.{find_service-eq-ok_iff, Provides}
use oes_birger.Route.Tracker.Members.{count, count-append, list_of-add, count-take_out, name_of}
use oes_birger.Route.Tracker.Serving.{
  IsOpen, close_route_lem, mem_of_count, routes-add, routes-take_out,
}

module _ (state : ℕ) (s : ConnectedRoutes) where
  twice : ConnectedRoutes
  twice = add state (add state s)

  routes-twice : twice.routes ≡ s.routes
  unfolding twice
  routes-twice = routes-add state (add state s) ∙ routes-add state s

  name-add : name_of state (add state s) ≡ name_of state s
  name-add = ap (λ (routes : ℕ → DirectlyConnectedRoute). (routes state).name) (routes-add state s)

  -- The route stands in its list once more than before each of the greetings.
  count-twice :
      count state (list_of (name_of state s) twice)
      ≡ suc (suc (count state (list_of (name_of state s) s)))
  unfolding twice
  count-twice = ground (
    arith,
    list_of-add state (add state s) (name_of state s),
    list_of-add state s (name_of state s),
    name-add,
    eq_refl (name_of state s),
    count-append state (list_of (name_of state s) (add state s)) (state ∷ []),
    count-append state (list_of (name_of state s) s) (state ∷ []),
  )

  module _ (closed : DirectlyConnectedRoute) (same : closed.name ≡ name_of state s) where
    left : ConnectedRoutes
    left = take_out state (record twice { routes = update twice.routes state closed })

    count-left :
        count state (list_of (name_of state s) left)
        ≡ suc (count state (list_of (name_of state s) s))
    unfolding left list_of update
    count-left =
        let s₂ : ConnectedRoutes = record twice { routes = update twice.routes state closed } in
        rw (count-take_out state s₂ (name_of state s) state)
          (ground (arith, count-twice, eq_iff closed.name (name_of state s)))

    left_listed : Memᴰ state (list_of (name_of state s) left)
    left_listed = mem_of_count state _ (ground (arith, count-left))

    left_closed : left.routes state ≡ closed
    unfolding left update
    left_closed =
        let s₂ : ConnectedRoutes = record twice { routes = update twice.routes state closed } in
        rw (routes-take_out state s₂) (ground arith)

  send-closed :
      (r : DirectlyConnectedRoute) (message : Message)
      → r.in_request.closed ≡ true
      → send_route message r ≡ none
  unfolding send_route Channel.send
  send-closed r message shut = ground arith

  -- A second greeting leaves the route listed when the connection ends, with its channels closed;
  -- the next request for one of its endpoints may be sent to it, and panics then.
  pub send_after_second_greeting :
      IsOpen (s.routes state)
      → (ep : Search) (message : Message) → ep.name ≡ name_of state s
      → has_endpoint ep.endpoint_type ep.endpoint_name (s.routes state) ≡ true
      → (s' : ConnectedRoutes) × (remove state (add state (add state s)) ≡ some s')
        × (draw : ℕ) × (send draw ep message s' ≡ panic)
  unfolding remove left twice send has_endpoint
  send_after_second_greeting o ep message named provides =
      let (closed, e, same, shut, kept) = close_route_lem (s.routes state) o in
      let e' : close_route (twice.routes state) ≡ some closed = rw routes-twice e in
      let provided : Provides (left closed same).routes ep state =
        rw (left_closed closed same, kept) provides in
      let listed : Memᴰ state (list_of ep.name (left closed same)) =
        rw named (left_listed closed same) in
      let (draw, found) =
        (find_service-eq-ok_iff ep (left closed same) state).0.1 (listed, provided) in
      (
        left closed same,
        rw (e', remove) refl,
        draw,
        rw (found, send)
            (rw (left_closed closed same) (rw (send-closed closed message shut, send))),
      )
