-- ===== src/Route/Tracker.antt =====
-- internal/tunnelroute/tracker.go: the routes that are connected, by name, and the gauge of their
-- number. A `Route` is a reference into the store `routes`, since the object is shared with the
-- goroutine that serves its connection; two references are the same route if they are equal.

pub mod Find
pub mod Members
pub mod Gauge
pub mod Serving
pub mod Greeting
pub mod Cancelled
pub mod Frame
use oes_birger.Prelude.{
  ℕ, zero, suc, ◌+◌, ◌-◌, ◌%◌, ℤ, pos, inc, dec, String, ◌==◌, Bool, true, false, List, [], ◌∷◌,
  ◌++◌, map, Option, none, some, lookup, insert, length, get_elem?, set, take, eqb, if◌then◌else◌,
  Result, ok, err, panic, ◌>>=◌,
}
use oes_birger.Channel.{update}
use oes_birger.Route.Direct.{
  DirectlyConnectedRoute, Message, Search, Statistics, get_statistics, close_route, send_route,
  cancel_route, has_endpoint, matches_route,
}

pub record ConnectedRoutes : Type 0 where
  pub m : List (String × List ℕ)
  pub gauge : String → ℤ
  pub routes : ℕ → DirectlyConnectedRoute

pub data Error : Type 0 where
  no_routes_connected no_such_route session_not_set no_specific_session : Error

-- `MakeRoutes`, with the objects that the store holds.
unfoldable pub make_routes : (ℕ → DirectlyConnectedRoute) → ConnectedRoutes
make_routes routes = record { m = []; gauge = λ _. pos 0; routes = routes }

-- `s.m[name]`, which is nil for a name that is not there.
unfoldable pub list_of : String → ConnectedRoutes → List ℕ
list_of name s = elim (lookup name s.m) [ none ↦ [] | some refs ↦ refs ]

unfoldable pub slice_index : ℕ → List ℕ → ℕ → Option ℕ
slice_index i [] state = none
slice_index i (ref ∷ refs) state =
    let rest = slice_index (i + 1) refs state in if eqb ref state then some i else rest

change : (String → ℤ) → String → (ℤ → ℤ) → String → ℤ
change gauge label f name = if label == name then f (gauge name) else gauge name

unfoldable pub add : ℕ → ConnectedRoutes → ConnectedRoutes
unfolding list_of change
add state s =
    let name = (s.routes state).name in
    record s { m = insert name (list_of name s ++ state ∷ []) s.m; gauge = change s.gauge name inc }

-- The last entry takes the place of the one at `i`, and the slice loses its end.
unfoldable pub swap_remove : List ℕ → ℕ → List ℕ
swap_remove refs i = elim (get_elem? refs (length refs - 1)) [
  | none ↦ refs
  | some end ↦ take (length refs - 1) (set refs i end)
]

-- The entry is taken out after the route is closed, also where it is not in the list.
unfoldable pub take_out : ℕ → ConnectedRoutes → ConnectedRoutes
unfolding slice_index swap_remove change
take_out state s =
    let name = (s.routes state).name in
    elim (lookup name s.m) [
      | none ↦ s
      | some refs ↦ elim (slice_index 0 refs state) [
        | none ↦ s
        | some i ↦ record s {
          m = insert name (swap_remove refs i) s.m;
          gauge = change s.gauge name dec;
        }
      ]
    ]

-- `none` is the panic of closing a channel that is closed.
unfoldable pub remove : ℕ → ConnectedRoutes → Option ConnectedRoutes
unfolding take_out
remove state s = elim (close_route (s.routes state)) [
  | none ↦ none
  | some closed ↦ some (take_out state (record s { routes = update s.routes state closed }))
]

-- The loop over the routes of a name: the indices of those that provide the endpoint.
unfoldable pub possible_routes : ℕ → (ℕ → DirectlyConnectedRoute) → Search → List ℕ → List ℕ
possible_routes i routes ep [] = []
possible_routes i routes ep (ref ∷ refs) =
    let rest = possible_routes (i + 1) routes ep refs in
    if has_endpoint ep.endpoint_type ep.endpoint_name (routes ref) then i ∷ rest else rest

abbrev pub or_panic {ℓ} : {A : Type ℓ} → Option A → Result Error A
or_panic none = panic
or_panic (some a) = ok a

-- The choice among the possible routes; `draw % n` is what `rnd.Intn(n)` returns.
unfoldable pub choose : ℕ → List ℕ → List ℕ → Result Error ℕ
choose draw refs [] = err no_such_route
choose draw refs (p ∷ possible) = do
  selected ← or_panic (get_elem? (p ∷ possible) (draw % length (p ∷ possible)))
  or_panic (get_elem? refs selected)

unfoldable pub find_service : ℕ → Search → ConnectedRoutes → Result Error ℕ
unfolding possible_routes choose
find_service draw ep s = elim (lookup ep.name s.m) [
  | none ↦ err no_routes_connected
  | some [] ↦ err no_routes_connected
  | some (ref ∷ refs) ↦ choose draw (ref ∷ refs) (possible_routes 0 s.routes ep (ref ∷ refs))
]

unfoldable pub send :
    ℕ → Search → Message → ConnectedRoutes → Result Error (String × ConnectedRoutes)
unfolding find_service
send draw ep message s = do
  route ← find_service draw ep s
  sent ← or_panic (send_route message (s.routes route))
  ok (sent.1, record s { routes = update s.routes route sent.0 })

-- The loop of `Cancel`: the first route that the search matches.
unfoldable pub first_match : (ℕ → DirectlyConnectedRoute) → Search → List ℕ → Option ℕ
first_match routes ep [] = none
first_match routes ep (ref ∷ refs) =
    if matches_route ep (routes ref) then some ref else first_match routes ep refs

unfoldable pub cancel_at : String → ConnectedRoutes → Option ℕ → Result Error ConnectedRoutes
cancel_at id s none = err no_specific_session
cancel_at id s (some ref) = do
  cancelled ← or_panic (cancel_route id (s.routes ref))
  ok (record s { routes = update s.routes ref cancelled })

unfoldable pub cancel : Search → String → ConnectedRoutes → Result Error ConnectedRoutes
unfolding first_match cancel_at
cancel ep id s = if ep.session == "" then err session_not_set else elim (lookup ep.name s.m) [
  | none ↦ err no_routes_connected
  | some [] ↦ err no_routes_connected
  | some (ref ∷ refs) ↦ cancel_at id s (first_match s.routes ep (ref ∷ refs))
]

-- `GetStatistics`, in the order of the range over the map.
unfoldable statistics_of : (ℕ → DirectlyConnectedRoute) → List (String × List ℕ) → List Statistics
statistics_of routes [] = []
statistics_of routes ((name, refs) ∷ m) =
    map (λ ref. get_statistics (routes ref)) refs ++ statistics_of routes m

unfoldable pub all_statistics : ConnectedRoutes → List Statistics
unfolding statistics_of
all_statistics s = statistics_of s.routes s.m
