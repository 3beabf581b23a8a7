-- ===== src/Route/Tracker/Cancelled.antt =====
-- Where a cancellation goes.
use oes_birger.Prelude.{
  ℕ, String, ◌==◌, ◌≡◌, ◌≢◌, refl, ◌∙◌, true, List, [], ◌∷◌, ◌++◌, Memᴰ, none, some, lookup,
  Option-cases, arith, Bool-cases, All, ◌↔◌, eq_iff, false, inl, inr, ◌⊎◌, ok, err,
}
use oes_birger.Channel.{update}
use oes_birger.Channel
use oes_birger.Route.Direct.{DirectlyConnectedRoute, Search, cancel_route, matches_route}
use oes_birger.Route.Tracker.{
  ConnectedRoutes, Error, session_not_set, no_routes_connected, no_specific_session, list_of,
  first_match, cancel_at, cancel,
}
use oes_birger.Route.Tracker.Members.{count, list_of-some}
use oes_birger.Route.Tracker.Serving.{IsOpen, IsServing, update-IsServing, count_of_mem}

-- With a session, a route of the name matches just if it has the session.
matches_route_iff :
    (ep : Search) (r : DirectlyConnectedRoute)
    → r.name ≡ ep.name
    → ep.session ≢ ""
    → (matches_route ep r ≡ true) ↔ (r.session ≡ ep.session)
unfolding matches_route
matches_route_iff ep r named set = (
  λ m. ground (arith, eq_iff ep.session "", eq_iff ep.session r.session),
  λ e. ground (arith, eq_iff ep.name r.name, eq_iff ep.session r.session),
)

first_match-cases :
    (routes : ℕ → DirectlyConnectedRoute) (ep : Search) (refs : List ℕ)
    → ((first_match routes ep refs ≡ none) × All (λ r. matches_route ep (routes r) ≡ false) refs)
      ⊎ ((r : ℕ) × (first_match routes ep refs ≡ some r)
          × Memᴰ r refs
          × (matches_route ep (routes r) ≡ true))
unfolding first_match
first_match-cases routes ep [] = inl (refl, tt)
first_match-cases routes ep (ref ∷ refs) = elim (Bool-cases (matches_route ep (routes ref))) [
  | inl here ↦ inr (ref, ground arith, Memᴰ.head refl, here)
  | inr there ↦ elim (first_match-cases routes ep refs) [
    | inl (missing, none_matches) ↦ inl (ground arith, (there, none_matches))
    | inr (r, e, m, found) ↦ inr (r, ground arith, Memᴰ.tail m, found)
  ]
]

pub cancel-cases :
    (ep : Search) (id : String) (s : ConnectedRoutes)
    → ((e : Error) × (cancel ep id s ≡ err e) × ((ep.session ≡ "") ⊎ (list_of ep.name s ≡ [])))
      ⊎ ((cancel ep id s ≡ cancel_at id s (first_match s.routes ep (list_of ep.name s)))
          × (ep.session ≢ ""))
unfolding cancel list_of
cancel-cases ep id s = elim (Bool-cases (ep.session == "")) [
  | inl unset ↦ inl (session_not_set, rw unset refl, inl ((eq_iff ep.session "").0 unset))
  | inr set ↦ elim (Option-cases (lookup ep.name s.m)) [
    | inl absent ↦ inl (no_routes_connected, rw (set, absent) refl, inr (rw (absent, list_of) refl))
    | inr ([], found) ↦
        inl (no_routes_connected, rw (set, found) refl, inr (rw (found, list_of) refl))
    | inr (ref ∷ refs, found) ↦ inr (
      rw (set, found, list_of-some 0 s ep.name (ref ∷ refs) found) refl,
      λ e. ground (arith, eq_iff ep.session ""),
    )
  ]
]

cancel_route_lem :
    (id : String) (r : DirectlyConnectedRoute)
    → IsOpen r
    → (r' : DirectlyConnectedRoute) × (cancel_route id r ≡ some r')
      × (r'.name ≡ r.name)
      × IsOpen r'
      × (r'.in_cancel_request.sent ≡ r.in_cancel_request.sent ++ id ∷ [])
unfolding cancel_route Channel.send
cancel_route_lem id r o = (
  record r {
    in_cancel_request = record (r.in_cancel_request) { sent = r.in_cancel_request.sent ++ id ∷ [] };
  },
  ground arith,
  refl,
  o,
  refl,
)

-- Why a cancellation is refused: it names no session, or no route of the name has its session.
abbrev pub IsUnknown : Search → ConnectedRoutes → Type 0
IsUnknown ep s =
    (ep.session ≡ "") ⊎ All (λ q. (s.routes q).session ≢ ep.session) (list_of ep.name s)

none_matches-IsUnknown :
    (ep : Search) (s : ConnectedRoutes) (refs : List ℕ)
    → ep.session ≢ ""
    → All (λ q. (s.routes q).name ≡ ep.name) refs
    → All (λ q. matches_route ep (s.routes q) ≡ false) refs
    → All (λ q. (s.routes q).session ≢ ep.session) refs
none_matches-IsUnknown ep s [] set named missed = tt
none_matches-IsUnknown ep s (q ∷ refs) set named missed = (
  λ same. cc ((matches_route_iff ep (s.routes q) named.0 set).1 same, missed.0),
  none_matches-IsUnknown ep s refs set named.1 missed.1,
)

all_of_mem : {P : ℕ → Type 0} (xs : List ℕ) → ((x : ℕ) → Memᴰ x xs → P x) → All P xs
all_of_mem [] h = tt
all_of_mem (x ∷ xs) h = (h x (Memᴰ.head refl), all_of_mem xs (λ y m. h y (Memᴰ.tail m)))

listed-named :
    (s : ConnectedRoutes) (name : String)
    → IsServing s
    → All (λ q. (s.routes q).name ≡ name) (list_of name s)
listed-named s name v = all_of_mem (list_of name s) λ q m.
    let listed : count q (list_of name s) ≢ 0 = count_of_mem q (list_of name s) m in
    ground (arith, v name q)

-- Among routes that serve, a cancellation does not panic. It is refused just if it names no session, or no route
-- that is listed under the name has this session. Otherwise it is passed on to one route that is listed
-- under the name and has the session, and to no other, and the routes serve as before.
pub cancel-IsServing :
    (ep : Search) (id : String) (s : ConnectedRoutes)
    → IsServing s
    → ((e : Error) × (cancel ep id s ≡ err e) × IsUnknown ep s)
      ⊎ ((s' : ConnectedRoutes) × (r : ℕ) × (cancel ep id s ≡ ok s')
          × IsServing s'
          × Memᴰ r (list_of ep.name s)
          × (ep.session ≢ "")
          × ((s.routes r).session ≡ ep.session)
          × ((s'.routes r).in_cancel_request.sent ≡ (s.routes r).in_cancel_request.sent ++ id ∷ [])
          × ((q : ℕ) → q ≢ r → s'.routes q ≡ s.routes q))
unfolding cancel_at update
cancel-IsServing ep id s v = elim (cancel-cases ep id s) [
  | inl (e, refused, inl unset) ↦ inl (e, refused, inl unset)
  | inl (e, refused, inr empty) ↦ inl (e, refused, inr (rw empty tt))
  | inr (same, set) ↦ elim (first_match-cases s.routes ep (list_of ep.name s)) [
    | inl (missing, missed) ↦ inl (
      no_specific_session,
      same ∙ rw missing refl,
      inr (none_matches-IsUnknown ep s (list_of ep.name s) set (listed-named s ep.name v) missed),
    )
    | inr (r, found, m, matches) ↦
        let listed : count r (list_of ep.name s) ≢ 0 = count_of_mem r (list_of ep.name s) m in
        let o : IsOpen (s.routes r) = ground (arith, v ep.name r) in
        let named_r : (s.routes r).name ≡ ep.name = ground (arith, v ep.name r) in
        let (r', e, named, o', sent) = cancel_route_lem id (s.routes r) o in
        inr (
          record s { routes = update s.routes r r' },
          r,
          same ∙ rw (found, cancel_at) (rw e refl),
          update-IsServing s r r' v named o',
          m,
          set,
          (matches_route_iff ep (s.routes r) named_r set).0 matches,
          ground arith,
          λ q other. ground arith,
        )
  ]
]
