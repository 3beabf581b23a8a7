-- ===== src/Route/Tracker/Serving.antt =====
-- When the operations on the routes are safe: a route that is listed is open, and is listed once.
use oes_birger.Prelude.{
  ℕ, String, ◌≡◌, ◌≢◌, refl, true, false, List, [], ◌∷◌, ◌++◌, Memᴰ, some, lookup, eq_iff, eqb,
  arith, Bool-cases, inl, inr, ◌⊎◌, Result, ok, err, panic,
}
use oes_birger.Channel.{update, open_chan, Chan}
use oes_birger.Channel
use oes_birger.Route.Direct.{DirectlyConnectedRoute, Message, Search, close_route, send_route}
use oes_birger.Route.Tracker.{
  ConnectedRoutes, Error, list_of, add, take_out, remove, find_service, send, make_routes,
}
use oes_birger.Route.Tracker.Find.{find_service-eq-ok_iff}
use oes_birger.Route.Tracker.Members.{count, count-append, list_of-add, count-take_out, name_of}

abbrev pub IsOpen : DirectlyConnectedRoute → Type 0
IsOpen r = (r.in_request.closed ≡ false) × (r.in_cancel_request.closed ≡ false)

abbrev pub IsListedWell : ConnectedRoutes → String → ℕ → Type 0
IsListedWell s n r =
    (count r (list_of n s) ≡ 0)
    ⊎ ((count r (list_of n s) ≡ 1) × ((s.routes r).name ≡ n) × IsOpen (s.routes r))

abbrev pub IsServing : ConnectedRoutes → Type 0
IsServing s = (n : String) (r : ℕ) → IsListedWell s n r

pub make_routes-IsServing : (routes : ℕ → DirectlyConnectedRoute) → IsServing (make_routes routes)
unfolding make_routes list_of lookup
make_routes-IsServing routes n r = inl refl

pub routes-add : (state : ℕ) (s : ConnectedRoutes) → (add state s).routes ≡ s.routes
unfolding add
routes-add state s = refl

pub add-IsServing :
    (state : ℕ) (s : ConnectedRoutes)
    → IsServing s
    → IsOpen (s.routes state)
    → count state (list_of (name_of state s) s) ≡ 0
    → IsServing (add state s)
add-IsServing state s v o unlisted n r =
    rw (list_of-add state s n, routes-add state s)
      (ground (arith, v n r, eq_iff (name_of state s) n, count-append r (list_of n s) (state ∷ [])))

pub close_route_lem :
    (r : DirectlyConnectedRoute)
    → IsOpen r
    → (closed : DirectlyConnectedRoute) × (close_route r ≡ some closed)
      × (closed.name ≡ r.name)
      × (closed.in_request.closed ≡ true)
      × (closed.endpoints ≡ r.endpoints)
unfolding close_route
close_route_lem r o = (
  record r {
    in_request = record (r.in_request) { closed = true };
    in_cancel_request = record (r.in_cancel_request) { closed = true };
  },
  ground arith,
  refl,
  refl,
  refl,
)

pub routes-take_out : (state : ℕ) (s : ConnectedRoutes) → (take_out state s).routes ≡ s.routes
unfolding take_out
routes-take_out state s = ground arith

module _ (state : ℕ) (s : ConnectedRoutes) (v : IsServing s) where
  -- What a removal leaves, with the route closed in the store.
  closed_out : DirectlyConnectedRoute → ConnectedRoutes
  closed_out closed = take_out state (record s { routes = update s.routes state closed })

  closed_out-IsServing :
      (closed : DirectlyConnectedRoute)
      → closed.name ≡ (s.routes state).name
      → IsServing (closed_out closed)
  unfolding closed_out update list_of
  closed_out-IsServing closed same n r =
      let s₁ : ConnectedRoutes = record s { routes = update s.routes state closed } in
      rw (count-take_out state s₁ n r, routes-take_out state s₁)
        (ground (arith, v n r, eq_iff (s.routes state).name n))

  closed_out_unlisted :
      (closed : DirectlyConnectedRoute)
      → closed.name ≡ (s.routes state).name
      → (n : String) → count state (list_of n (closed_out closed)) ≡ 0
  unfolding closed_out update list_of
  closed_out_unlisted closed same n =
      let s₁ : ConnectedRoutes = record s { routes = update s.routes state closed } in
      rw (count-take_out state s₁ n state)
        (ground (arith, v n state, eq_iff (s.routes state).name n))

  -- The removal of an open route does not panic, and afterwards the route stands in no list.
  pub remove-IsServing :
      IsOpen (s.routes state)
      → (s' : ConnectedRoutes) × (remove state s ≡ some s')
        × IsServing s'
        × ((n : String) → count state (list_of n s') ≡ 0)
  unfolding remove closed_out
  remove-IsServing o =
      let (closed, e, same, _, _) = close_route_lem (s.routes state) o in
      (
        closed_out closed,
        rw (e, remove) refl,
        closed_out-IsServing closed same,
        closed_out_unlisted closed same,
      )

pub count_of_mem : (r : ℕ) (xs : List ℕ) → Memᴰ r xs → count r xs ≢ 0
count_of_mem r [] h = elim h [ ]
count_of_mem r (x ∷ xs) (Memᴰ.head e) = ground arith
count_of_mem r (x ∷ xs) (Memᴰ.tail h) = ground (arith, count_of_mem r xs h)

pub mem_of_count : (r : ℕ) (xs : List ℕ) → count r xs ≢ 0 → Memᴰ r xs
mem_of_count r [] h = absurd (h refl)
mem_of_count r (x ∷ xs) h = elim (Bool-cases (eqb x r)) [
  | inl here ↦ Memᴰ.head (ground arith)
  | inr there ↦ Memᴰ.tail (mem_of_count r xs (rw there at h))
]

-- A route whose fields other than the open channels stay as they are stays listed well.
pub update-IsServing :
    (s : ConnectedRoutes) (ref : ℕ) (r : DirectlyConnectedRoute)
    → IsServing s
    → r.name ≡ (s.routes ref).name
    → IsOpen r
    → IsServing (record s { routes = update s.routes ref r })
unfolding update list_of
update-IsServing s ref r v same o n x = ground (arith, v n x)

send_route_lem :
    (message : Message) (r : DirectlyConnectedRoute)
    → IsOpen r
    → (r' : DirectlyConnectedRoute) × (send_route message r ≡ some (r', r.session))
      × (r'.name ≡ r.name)
      × IsOpen r'
unfolding send_route Channel.send
send_route_lem message r o = (
  record r { in_request = record (r.in_request) { sent = r.in_request.sent ++ message ∷ [] } },
  ground arith,
  refl,
  o,
)

-- A request is never sent to a route that is closed: whatever is drawn, `Send` does not panic, and
-- when it finds a route the routes serve as before.
pub send-IsServing :
    (draw : ℕ) (ep : Search) (message : Message) (s : ConnectedRoutes)
    → IsServing s
    → ((e : Error) × (send draw ep message s ≡ err e))
      ⊎ ((session : String) × (s' : ConnectedRoutes) × (send draw ep message s ≡ ok (session, s'))
          × IsServing s')
unfolding send
send-IsServing draw ep message s v = found (find_service draw ep s) refl
  where
    found :
        (f : Result Error ℕ)
        → find_service draw ep s ≡ f
        → ((e : Error) × (send draw ep message s ≡ err e))
          ⊎ ((session : String) × (s' : ConnectedRoutes) × (send draw ep message s
                ≡ ok (session, s'))
              × IsServing s')
    found (err e) p = inl (e, rw (p, send))
    found panic p = absurd ((find_service-eq-ok_iff ep s 0).1 draw p)
    found (ok r) p =
        let (m, _) = (find_service-eq-ok_iff ep s r).0.0 (draw, p) in
        let listed : count r (list_of ep.name s) ≢ 0 = count_of_mem r (list_of ep.name s) m in
        let o : IsOpen (s.routes r) = ground (arith, v ep.name r) in
        let (r', e, same, o') = send_route_lem message (s.routes r) o in
        inr (
          (s.routes r).session,
          record s { routes = update s.routes r r' },
          rw (p, send) (rw (e, send)),
          update-IsServing s r r' v same o',
        )
