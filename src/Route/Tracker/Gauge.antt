-- ===== src/Route/Tracker/Gauge.antt =====
-- The gauge `routess_connected` of internal/tunnelroute/prometheus.go against the lists of routes.
use oes_birger.Prelude.{
  ℕ, pos, inc, dec, String, ◌≡◌, refl, List, [], ◌∷◌, Option, none, some, lookup, length,
  length-append, if◌then◌else◌, eq_iff, ◌==◌, arith, Option-cases, inl, inr,
}
use oes_birger.Route.Direct.{DirectlyConnectedRoute}
use oes_birger.Route.Tracker.{
  ConnectedRoutes, make_routes, list_of, slice_index, add, take_out, remove, change,
}
use oes_birger.Route.Tracker.Members.{
  swap_remove_lem, list_of-add, take_out_absent, take_out_unlisted, list_of-take_out_listed,
  found_at, list_of-some, name_of, remove-inv,
}

abbrev pub IsCounted : ConnectedRoutes → Type 0
IsCounted s = (n : String) → s.gauge n ≡ pos (length (list_of n s))

make_routes-IsCounted : (routes : ℕ → DirectlyConnectedRoute) → IsCounted (make_routes routes)
unfolding make_routes list_of lookup
make_routes-IsCounted routes n = refl

gauge-add :
    (state : ℕ) (s : ConnectedRoutes) (n : String)
    → (add state s).gauge n ≡ (if name_of state s == n then inc (s.gauge n) else s.gauge n)
unfolding add change
gauge-add state s n = refl

add-IsCounted : (state : ℕ) (s : ConnectedRoutes) → IsCounted s → IsCounted (add state s)
add-IsCounted state s h n = ground (
  arith,
  gauge-add state s n,
  list_of-add state s n,
  h n,
  length-append (list_of n s) (state ∷ []),
)

gauge-take_out :
    (state : ℕ) (s : ConnectedRoutes) (refs : List ℕ) (i : ℕ) (n : String)
    → lookup (name_of state s) s.m ≡ some refs
    → slice_index 0 refs state ≡ some i
    → (take_out state s).gauge n ≡ (if name_of state s == n then dec (s.gauge n) else s.gauge n)
unfolding take_out change
gauge-take_out state s refs i n e at = rw (e, take_out) (rw (at, take_out))

take_out-IsCounted : (state : ℕ) (s : ConnectedRoutes) → IsCounted s → IsCounted (take_out state s)
take_out-IsCounted state s h n = elim (Option-cases (lookup (name_of state s) s.m)) [
  | inl e ↦ rw (take_out_absent state s e) (h n)
  | inr (refs, e) ↦ elim (Option-cases (slice_index 0 refs state)) [
    | inl at ↦ rw (take_out_unlisted state s refs e at) (h n)
    | inr (i, at) ↦ ground (
      arith,
      gauge-take_out state s refs i n e at,
      list_of-take_out_listed state s refs i n e at,
      list_of-some state s (name_of state s) refs e,
      eq_iff (name_of state s) n,
      h n,
      swap_remove_lem 0 i state refs (found_at state s refs i at),
    )
  ]
]

-- What happens to the routes, one operation under the lock at a time. `edits` is any change to the
-- route objects themselves: greetings, pings, requests and cancellations.
pub data Op : Type 0 where
  adds removes : ℕ → Op
  edits : (ℕ → DirectlyConnectedRoute) → Op

-- `none` once an operation has panicked.
unfoldable pub step : Op → ConnectedRoutes → Option ConnectedRoutes
step (adds state) s = some (add state s)
step (removes state) s = remove state s
step (edits routes) s = some (record s { routes = routes })

unfoldable pub run : List Op → ConnectedRoutes → Option ConnectedRoutes
run [] s = some s
run (op ∷ ops) s = elim (step op s) [ none ↦ none | some s' ↦ run ops s' ]

step-IsCounted :
    (op : Op) (s s' : ConnectedRoutes) → step op s ≡ some s' → IsCounted s → IsCounted s'
unfolding step list_of
step-IsCounted (adds state) s s' e h =
    let e' : add state s ≡ s' = cc in rw (← e') (add-IsCounted state s h)
step-IsCounted (removes state) s s' e h =
    let (closed, p, e') = remove-inv state s s' e in rw e' (take_out-IsCounted state _ h)
step-IsCounted (edits routes) s s' e h =
    let e' : record s { routes = routes } ≡ s' = cc in rw (← e') h

run-IsCounted :
    (ops : List Op) (s s' : ConnectedRoutes) → run ops s ≡ some s' → IsCounted s → IsCounted s'
unfolding run
run-IsCounted [] s s' e h = let e' : s ≡ s' = cc in rw (← e') h
run-IsCounted (op ∷ ops) s s' e h = elim (Option-cases (step op s)) [
  | inl p ↦ absurd (ground arith)
  | inr (s₁, p) ↦ run-IsCounted ops s₁ s' (rw (p, run) at e) (step-IsCounted op s s₁ p h)
]

-- The gauge of each name is the number of routes in the list of the name, after every history of
-- additions, removals and changes to the routes that has not panicked.
pub run-make_routes-IsCounted :
    (routes : ℕ → DirectlyConnectedRoute) (ops : List Op) (s : ConnectedRoutes)
    → run ops (make_routes routes) ≡ some s
    → (n : String) → s.gauge n ≡ pos (length (list_of n s))
run-make_routes-IsCounted routes ops s e =
    run-IsCounted ops (make_routes routes) s e (make_routes-IsCounted routes)
