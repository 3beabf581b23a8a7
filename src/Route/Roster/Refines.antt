-- ===== src/Route/Roster/Refines.antt =====
-- The table of routes against its roster.
use oes_birger.Prelude.{
  ℕ, ◌<◌, String, ◌==◌, ◌≡◌, refl, ap, ◌∙◌, sym, List, [], ◌∷◌, some, eqb, arith, Memᴰ, Bool-cases,
  Option-cases, inl, inr, ◌↔◌, ok, lookup,
}
use mathlib.Core.Path.{fun_ext}
use mathlib.Core.Quot
use mathlib.Core.Quot.{Quot, Quot-set}
use oes_birger.Channel.{update, close}
use oes_birger.Route.Direct.{DirectlyConnectedRoute, Search, close_route}
use oes_birger.Route.Tracker.{
  ConnectedRoutes, list_of, slice_index, add, take_out, remove, find_service,
}
use oes_birger.Route.Tracker.Members.{
  count, count-append, list_of-add, count-take_out, name_of, remove-inv,
}
use oes_birger.Route.Tracker.Gauge.{Op, adds, removes, edits, step, run}
use oes_birger.Route.Tracker.Find.{Provides, find_service-eq-ok_iff}
use oes_birger.Route.Roster.{
  Bag, count-erase, put, drop, occurrences, Roster, change_bag, roster_step, roster_run, roster,
}

some-inj : {A : Type 0} {a b : A} → some a ≡ some b → a ≡ b
some-inj e = cc e

module _ (state : ℕ) (s : ConnectedRoutes) where
  bag-add :
      (n : String)
      → ◌≡◌ {A = Bag}
          (Quot.mk (list_of n (add state s)))
          (change_bag (name_of state s) (put state) (λ k. Quot.mk (list_of k s)) n)
  unfolding change_bag put
  bag-add n = elim (Bool-cases (name_of state s == n)) [
    | inl same ↦
        rw (list_of-add state s n, same)
          (Quot.sound (λ a. ground (arith, count-append a (list_of n s) (state ∷ []))))
    | inr other ↦ rw (list_of-add state s n, other) refl
  ]

  bag-take_out :
      (n : String)
      → ◌≡◌ {A = Bag}
          (Quot.mk (list_of n (take_out state s)))
          (change_bag (name_of state s) (drop state) (λ k. Quot.mk (list_of k s)) n)
  unfolding change_bag drop
  bag-take_out n = elim (Bool-cases (name_of state s == n)) [
    | inl same ↦ rw same (
        Quot.sound
          (λ a. ground (arith, count-take_out state s n a, count-erase a state (list_of n s))))
    | inr other ↦ rw other (Quot.sound (λ a. ground (arith, count-take_out state s n a)))
  ]

close_route-name :
    (r closed : DirectlyConnectedRoute) → close_route r ≡ some closed → closed.name ≡ r.name
unfolding close_route
close_route-name r closed e = elim (Option-cases (close r.in_request)) [
  | inl p ↦ cc (rw (p, close_route) at e)
  | inr (requests, p) ↦ elim (Option-cases (close r.in_cancel_request)) [
    | inl q ↦ cc (rw (p, close_route, q) at e)
    | inr (cancels, q) ↦ ap (λ x. x.name) (sym (some-inj (rw (p, close_route, q) at e)))
  ]
]

names-update :
    (routes : ℕ → DirectlyConnectedRoute) (state : ℕ) (closed : DirectlyConnectedRoute)
    → closed.name ≡ (routes state).name
    → ◌≡◌ {A = ℕ → String} (λ r. (update routes state closed r).name) (λ r. (routes r).name)
unfolding update
names-update routes state closed e = fun_ext λ r. ground arith

routes-take_out : (state : ℕ) (s : ConnectedRoutes) → (take_out state s).routes ≡ s.routes
unfolding take_out
routes-take_out state s = elim (Option-cases (lookup (s.routes state).name s.m)) [
  | inl e ↦ rw (e, take_out) refl
  | inr (refs, e) ↦ elim (Option-cases (slice_index 0 refs state)) [
    | inl at ↦ rw (e, take_out, at) refl
    | inr (i, at) ↦ rw (e, take_out, at) refl
  ]
]

Roster-ext : (a b : Roster) → a.names ≡ b.names → a.bags ≡ b.bags → a ≡ b
Roster-ext a b same_names same_bags = λ i. record { names = same_names i; bags = same_bags i }

roster-remove :
    (state : ℕ) (s s' : ConnectedRoutes)
    → remove state s ≡ some s'
    → roster s' ≡ roster_step (removes state) (roster s)
unfolding roster roster_step list_of
roster-remove state s s' e =
    let (closed, p, e') = remove-inv state s s' e in
    let t : ConnectedRoutes = record s { routes = update s.routes state closed } in
    let same_names = names-update s.routes state closed (close_route-name _ closed p) in
    let same_bags =
      fun_ext (bag-take_out state t)
      ∙ ap (λ name. change_bag name (drop state) (λ k. Quot.mk (list_of k s)))
          (ap (λ names. names state) same_names) in
    ap roster e'
    ∙ Roster-ext (roster (take_out state t)) (roster_step (removes state) (roster s))
        (ap (λ routes r. (routes r).name) (routes-take_out state t) ∙ same_names) same_bags

roster-step :
    (op : Op) (s s' : ConnectedRoutes) → step op s ≡ some s' → roster s' ≡ roster_step op (roster s)
unfolding step roster roster_step list_of add
roster-step (adds state) s s' e =
    ap roster (sym (some-inj e))
    ∙ Roster-ext (roster (add state s)) (roster_step (adds state) (roster s)) refl
        (fun_ext (bag-add state s))
roster-step (removes state) s s' e = roster-remove state s s' e
roster-step (edits routes) s s' e = ap roster (sym (some-inj e))

-- After every history of additions, removals and changes to the routes that does not panic, the table
-- stands for the roster in which each addition has put the route into the bag of the name that it
-- carried, and each removal has taken one occurrence out of the bag of the name that it carried.
pub roster-run :
    (ops : List Op) (s s' : ConnectedRoutes)
    → run ops s ≡ some s'
    → roster s' ≡ roster_run ops (roster s)
unfolding run roster_run
roster-run [] s s' e = ap roster (sym (some-inj e))
roster-run (op ∷ ops) s s' e = elim (Option-cases (step op s)) [
  | inl p ↦ cc (rw (p, run) at e)
  | inr (s₁, p) ↦
      roster-run ops s₁ s' (rw (p, run) at e) ∙ ap (roster_run ops) (roster-step op s s₁ p)
]

mem_of_count : (r : ℕ) (xs : List ℕ) → 0 < count r xs → Memᴰ r xs
mem_of_count r [] h = absurd (omega arith)
mem_of_count r (x ∷ xs) h = elim (Bool-cases (eqb x r)) [
  | inl e ↦ Memᴰ.head (ground arith)
  | inr e ↦ Memᴰ.tail (mem_of_count r xs (rw e at h))
]

count_of_mem : (r : ℕ) (xs : List ℕ) → Memᴰ r xs → 0 < count r xs
count_of_mem r [] h = elim h [ ]
count_of_mem r (x ∷ xs) (Memᴰ.head e) = ground arith
count_of_mem r (x ∷ xs) (Memᴰ.tail h) = ground (arith, count_of_mem r xs h)

-- A route can be chosen for a request, by some draw, exactly if it occurs in the bag of the name that is
-- searched for and provides the endpoint: the order of the lists has no part in it.
pub find_service-occurrences :
    (ep : Search) (s : ConnectedRoutes) (r : ℕ)
    → ((draw : ℕ) × (find_service draw ep s ≡ ok r))
      ↔ ((0 < occurrences r ((roster s).bags ep.name)) × Provides s.routes ep r)
unfolding roster occurrences
find_service-occurrences ep s r =
    let choice = (find_service-eq-ok_iff ep s r).0 in
    (
      λ c. let (m, p) = choice.0 c in (count_of_mem r (list_of ep.name s) m, p),
      λ (occurs, p). choice.1 (mem_of_count r (list_of ep.name s) occurs, p),
    )
