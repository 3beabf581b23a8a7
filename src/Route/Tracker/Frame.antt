-- ===== src/Route/Tracker/Frame.antt =====
-- What the operations on the routes leave as it was.
use oes_birger.Prelude.{
  ℕ, String, ◌≡◌, ◌≢◌, refl, ◌∙◌, [], ◌∷◌, some, arith, ok, ◌==◌, if◌then◌else◌, Result, Option,
  none, >>=-eq-ok, Option-cases, inl, inr,
}
use oes_birger.Channel.{update}
use oes_birger.Channel
use oes_birger.Route.Direct.{DirectlyConnectedRoute, Message, Search, send_route, cancel_route}
use oes_birger.Route.Tracker.{
  ConnectedRoutes, list_of, add, remove, find_service, Error, or_panic, first_match, cancel_at,
  send, cancel,
}
use oes_birger.Route.Tracker.Members.{
  count, count-append, list_of-add, count-take_out, remove-inv, name_of,
}
use oes_birger.Route.Tracker.Cancelled.{cancel-cases}
use oes_birger.Route.Tracker.Serving.{IsOpen, IsServing, routes-add, routes-take_out}

-- The route is still what it was to the others: its name, whether it is open, and where it is listed.
pub record IsKept (q : ℕ) (s s' : ConnectedRoutes) : Type 0 where
  pub name : (s'.routes q).name ≡ (s.routes q).name
  pub still_open : IsOpen (s.routes q) → IsOpen (s'.routes q)
  pub listed : (n : String) → count q (list_of n s') ≡ count q (list_of n s)

pub IsKept-refl : (q : ℕ) (s : ConnectedRoutes) → IsKept q s s
IsKept-refl q s = record { name = refl; still_open = λ o. o; listed = λ n. refl }

pub IsKept-trans : {q : ℕ} {s t u : ConnectedRoutes} → IsKept q s t → IsKept q t u → IsKept q s u
IsKept-trans a b = record {
  name = b.name ∙ a.name;
  still_open = λ o. b.still_open (a.still_open o);
  listed = λ n. b.listed n ∙ a.listed n;
}

-- Another object is put in the store.
pub update-IsKept :
    (p : ℕ) (r : DirectlyConnectedRoute) (s : ConnectedRoutes) (q : ℕ)
    → q ≢ p
    → IsKept q s (record s { routes = update s.routes p r })
unfolding update list_of
update-IsKept p r s q other = record {
  name = ground arith;
  still_open = λ o. ground arith;
  listed = λ n. refl;
}

-- An object with the same name, and channels that are open as before, is put in its place.
pub update-IsKept_self :
    (p : ℕ) (r : DirectlyConnectedRoute) (s : ConnectedRoutes) (q : ℕ)
    → r.name ≡ (s.routes p).name
    → r.in_request.closed ≡ (s.routes p).in_request.closed
    → r.in_cancel_request.closed ≡ (s.routes p).in_cancel_request.closed
    → IsKept q s (record s { routes = update s.routes p r })
unfolding update list_of
update-IsKept_self p r s q same requests cancels = record {
  name = ground arith;
  still_open = λ o. ground arith;
  listed = λ n. refl;
}

-- Routes that serve go on to serve where each of them is kept.
pub IsKept-IsServing :
    (s s' : ConnectedRoutes) → IsServing s → ((q : ℕ) → IsKept q s s') → IsServing s'
IsKept-IsServing s s' v kept n q = elim (v n q) [
  | inl unlisted ↦ inl ((kept q).listed n ∙ unlisted)
  | inr (once, named, o) ↦
      inr ((kept q).listed n ∙ once, (kept q).name ∙ named, (kept q).still_open o)
]

pub add-IsKept : (p : ℕ) (s : ConnectedRoutes) (q : ℕ) → q ≢ p → IsKept q s (add p s)
add-IsKept p s q other = record {
  name = rw (routes-add p s);
  still_open = λ o. rw (routes-add p s) o;
  listed = λ n. rw (list_of-add p s n) (ground (arith, count-append q (list_of n s) (p ∷ [])));
}

-- A route that was in no list is listed once, under its name.
pub count-add :
    (p : ℕ) (s : ConnectedRoutes)
    → ((n : String) → count p (list_of n s) ≡ 0)
    → (n : String) → count p (list_of n (add p s)) ≡ (if name_of p s == n then 1 else 0)
count-add p s unlisted n =
    rw (list_of-add p s n) (ground (arith, unlisted n, count-append p (list_of n s) (p ∷ [])))

pub remove-IsKept :
    (p : ℕ) (s s' : ConnectedRoutes) (q : ℕ) → remove p s ≡ some s' → q ≢ p → IsKept q s s'
remove-IsKept p s s' q e other =
    let (closed, _, same) = remove-inv p s s' e in
    let s₁ : ConnectedRoutes = record s { routes = update s.routes p closed } in
    let put = update-IsKept p closed s q other in
    rw same (record {
      name = rw (routes-take_out p s₁) put.name;
      still_open = λ o. rw (routes-take_out p s₁) (put.still_open o);
      listed = λ n. rw (count-take_out p s₁ n q) (ground (arith, put.listed n));
    })

send_route-inv :
    (message : Message) (r : DirectlyConnectedRoute) (sent : DirectlyConnectedRoute × String)
    → send_route message r ≡ some sent
    → (sent.0.name ≡ r.name)
      × (sent.0.in_request.closed ≡ r.in_request.closed)
      × (sent.0.in_cancel_request.closed ≡ r.in_cancel_request.closed)
unfolding send_route Channel.send
send_route-inv message r sent e = ground arith

cancel_route-inv :
    (id : String) (r r' : DirectlyConnectedRoute)
    → cancel_route id r ≡ some r'
    → (r'.name ≡ r.name)
      × (r'.in_request.closed ≡ r.in_request.closed)
      × (r'.in_cancel_request.closed ≡ r.in_cancel_request.closed)
unfolding cancel_route Channel.send
cancel_route-inv id r r' e = ground arith

or_panic-inv {ℓ} :
    {A : Type ℓ} (o : Option A) (a : A) → ◌≡◌ {A = Result Error A} (or_panic o) (ok a) → o ≡ some a
or_panic-inv none a e = cc e
or_panic-inv (some b) a e = cc e

pub send-IsKept :
    (draw : ℕ) (ep : Search) (message : Message) (s s' : ConnectedRoutes) (session : String) (q : ℕ)
    → send draw ep message s ≡ ok (session, s')
    → IsKept q s s'
unfolding send
send-IsKept draw ep message s s' session q e =
    let (p, _, e₁) = >>=-eq-ok (find_service draw ep s) _ e in
    let (sent, f, g) = >>=-eq-ok (or_panic (send_route message (s.routes p))) _ e₁ in
    let (named, requests, cancels) =
      send_route-inv message (s.routes p) sent (or_panic-inv _ sent f) in
    let same : s' ≡ record s { routes = update s.routes p sent.0 } = cc g in
    rw same (update-IsKept_self p sent.0 s q named requests cancels)

pub cancel-IsKept :
    (ep : Search) (id : String) (s s' : ConnectedRoutes) (q : ℕ)
    → cancel ep id s ≡ ok s'
    → IsKept q s s'
unfolding cancel_at
cancel-IsKept ep id s s' q e = elim (cancel-cases ep id s) [
  | inl (why, refused, _) ↦ cc (refused, e)
  | inr (same, _) ↦ elim (Option-cases (first_match s.routes ep (list_of ep.name s))) [
    | inl missing ↦ cc (rw (same, missing) at e)
    | inr (p, found) ↦
        let (r, f, g) =
          >>=-eq-ok (or_panic (cancel_route id (s.routes p))) _ (rw (same, found) at e) in
        let (named, requests, cancels) = cancel_route-inv id (s.routes p) r (or_panic-inv _ r f) in
        let put : s' ≡ record s { routes = update s.routes p r } = cc g in
        rw put (update-IsKept_self p r s q named requests cancels)
  ]
]
