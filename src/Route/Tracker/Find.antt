-- ===== src/Route/Tracker/Find.antt =====
-- Which route `findService` chooses.
use oes_birger.Prelude.{
  ℕ, zero, suc, ◌+◌, ◌-◌, ◌%◌, ◌≤◌, ◌≡◌, ◌≢◌, refl, ◌∙◌, true, List, [], ◌∷◌, Memᴰ, some, lookup,
  length, get_elem?, get_elem?-lt-length, mem_of_get_elem?, get_elem?_of_mem, if◌then◌else◌, ◌↔◌,
  Result, ok, err, panic, arith, Option-cases, Bool-cases, inl, inr,
}
use native.Mathlib.Nat.{mod-eq_of_lt}
use oes_birger.Route.Direct.{DirectlyConnectedRoute, Search, has_endpoint}
use oes_birger.Route.Tracker.{
  ConnectedRoutes, Error, no_routes_connected, no_such_route, list_of, possible_routes, or_panic,
  choose, find_service,
}

module _ (routes : ℕ → DirectlyConnectedRoute) (ep : Search) where
  abbrev pub Provides : ℕ → Type 0
  Provides ref = has_endpoint ep.endpoint_type ep.endpoint_name (routes ref) ≡ true

  -- The routes that provide the endpoint, in the order of the list.
  providers : List ℕ → List ℕ
  providers [] = []
  providers (ref ∷ refs) =
      if has_endpoint ep.endpoint_type ep.endpoint_name (routes ref)
      then ref ∷ providers refs
      else providers refs

  mem-providers : (refs : List ℕ) (r : ℕ) → Memᴰ r refs → Provides r → Memᴰ r (providers refs)
  unfolding providers
  mem-providers [] r h p = elim h [ ]
  mem-providers (x ∷ refs) r (Memᴰ.head e) p =
      let p' : Provides x = rw (← e) p in rw (p', providers) (Memᴰ.head e)
  mem-providers (x ∷ refs) r (Memᴰ.tail h) p =
      let ih = mem-providers refs r h p in
      elim (Bool-cases (has_endpoint ep.endpoint_type ep.endpoint_name (routes x))) [
        | inl e ↦ rw (e, providers) (Memᴰ.tail ih)
        | inr e ↦ rw (e, providers) ih
      ]

  mem_of_cons :
      (x : ℕ) (refs : List ℕ) (r : ℕ)
      → Provides x
      → (Memᴰ r (providers refs) → Memᴰ r refs × Provides r)
      → Memᴰ r (x ∷ providers refs)
      → Memᴰ r (x ∷ refs) × Provides r
  mem_of_cons x refs r p ih (Memᴰ.head e) = (Memᴰ.head e, rw e p)
  mem_of_cons x refs r p ih (Memᴰ.tail h) = (Memᴰ.tail (ih h).0, (ih h).1)

  mem_of_mem-providers :
      (refs : List ℕ) (r : ℕ) → Memᴰ r (providers refs) → Memᴰ r refs × Provides r
  unfolding providers
  mem_of_mem-providers [] r h = elim h [ ]
  mem_of_mem-providers (x ∷ refs) r h =
      elim (Bool-cases (has_endpoint ep.endpoint_type ep.endpoint_name (routes x))) [
        | inl e ↦ mem_of_cons x refs r e (mem_of_mem-providers refs r) (rw (e, providers) at h)
        | inr e ↦
            let (m, p) = mem_of_mem-providers refs r (rw (e, providers) at h) in (Memᴰ.tail m, p)
      ]

  possible-ge :
      (i : ℕ) (refs : List ℕ) (k j : ℕ)
      → get_elem? (possible_routes i routes ep refs) k ≡ some j
      → i ≤ j
  unfolding possible_routes
  possible-ge i [] k j e = cc
  possible-ge i (x ∷ refs) zero j e = ground (arith, possible-ge (i + 1) refs zero j)
  possible-ge i (x ∷ refs) (suc k) j e =
      ground (arith, possible-ge (i + 1) refs (suc k) j, possible-ge (i + 1) refs k j)

  length-possible :
      (i : ℕ) (refs : List ℕ) → length (possible_routes i routes ep refs) ≡ length (providers refs)
  unfolding possible_routes providers
  length-possible i [] = refl
  length-possible i (x ∷ refs) = ground (arith, length-possible (i + 1) refs)

  get_elem?-shift :
      (x : ℕ) (refs : List ℕ) (i j : ℕ)
      → i + 1 ≤ j
      → get_elem? (x ∷ refs) (j - i) ≡ get_elem? refs (j - (i + 1))
  get_elem?-shift x refs i j h = let e : j - i ≡ suc (j - (i + 1)) = omega arith in rw e refl

  here :
      (i x : ℕ) (refs : List ℕ) (k j : ℕ)
      → get_elem? (i ∷ possible_routes (i + 1) routes ep refs) k ≡ some j
      → ((k' : ℕ)
          → get_elem? (possible_routes (i + 1) routes ep refs) k' ≡ some j
          → get_elem? refs (j - (i + 1)) ≡ get_elem? (providers refs) k')
      → get_elem? (x ∷ refs) (j - i) ≡ get_elem? (x ∷ providers refs) k
  here i x refs zero j e later = let z : j - i ≡ 0 = ground arith in rw z refl
  here i x refs (suc k) j e later =
      get_elem?-shift x refs i j (possible-ge (i + 1) refs k j e) ∙ later k e

  -- The `k`-th possible index leads to the `k`-th provider.
  get_elem?-possible :
      (i : ℕ) (refs : List ℕ) (k j : ℕ)
      → get_elem? (possible_routes i routes ep refs) k ≡ some j
      → get_elem? refs (j - i) ≡ get_elem? (providers refs) k
  unfolding possible_routes providers
  get_elem?-possible i [] k j e = cc
  get_elem?-possible i (x ∷ refs) k j e =
      elim (Bool-cases (has_endpoint ep.endpoint_type ep.endpoint_name (routes x))) [
        | inl p ↦
            rw (p, providers)
              (here i x refs k j (rw (p, possible_routes) at e)
                (λ k'. get_elem?-possible (i + 1) refs k' j))
        | inr p ↦
            let e' = rw (p, possible_routes) at e in
            rw (p, providers)
              (get_elem?-shift x refs i j (possible-ge (i + 1) refs k j e')
                ∙ get_elem?-possible (i + 1) refs k j e')
      ]

-- What `choose` comes to among the providers.
abbrev pub pick : ℕ → List ℕ → Result Error ℕ
pick draw [] = err no_such_route
pick draw (p ∷ ps) = or_panic (get_elem? (p ∷ ps) (draw % length (p ∷ ps)))

choose_of :
    (draw : ℕ) (refs ps es : List ℕ)
    → length ps ≡ length es
    → ((k j : ℕ) → get_elem? ps k ≡ some j → get_elem? refs j ≡ get_elem? es k)
    → choose draw refs ps ≡ pick draw es
unfolding choose
choose_of draw refs [] [] same agree = refl
choose_of draw refs [] (e ∷ es) same agree = absurd (omega arith)
choose_of draw refs (p ∷ ps) [] same agree = absurd (omega arith)
choose_of draw refs (p ∷ ps) (e ∷ es) same agree =
    let (j, at) = get_elem?-lt-length (p ∷ ps) (draw % length (p ∷ ps)) (omega arith) in
    ground (arith, agree (draw % length (p ∷ ps)) j at)

choose-pick :
    (routes : ℕ → DirectlyConnectedRoute) (ep : Search) (draw : ℕ) (refs : List ℕ)
    → choose draw refs (possible_routes 0 routes ep refs) ≡ pick draw (providers routes ep refs)
choose-pick routes ep draw refs =
    choose_of draw refs _ _ (length-possible routes ep 0 refs) (λ k j e.
      let z : j - 0 ≡ j = omega arith in rw z at (get_elem?-possible routes ep 0 refs k j e))

-- An error of `findService`, in terms of the list of the name and the providers in it.
abbrev pub find_in : ℕ → List ℕ → List ℕ → Result Error ℕ
find_in draw [] ps = err no_routes_connected
find_in draw (ref ∷ refs) ps = pick draw ps

find_service-some :
    (draw : ℕ) (ep : Search) (s : ConnectedRoutes) (refs : List ℕ)
    → lookup ep.name s.m ≡ some refs
    → find_service draw ep s ≡ find_in draw refs (providers s.routes ep refs)
unfolding find_service
find_service-some draw ep s [] e = rw (e, find_service)
find_service-some draw ep s (ref ∷ refs) e =
    rw (e, find_service) (choose-pick s.routes ep draw (ref ∷ refs))

find_service-find_in :
    (draw : ℕ) (ep : Search) (s : ConnectedRoutes)
    → find_service draw ep s
      ≡ find_in draw (list_of ep.name s) (providers s.routes ep (list_of ep.name s))
unfolding find_service list_of
find_service-find_in draw ep s = elim (Option-cases (lookup ep.name s.m)) [
  | inl e ↦ rw (e, find_service, list_of)
  | inr (refs, e) ↦ rw (e, list_of) (find_service-some draw ep s refs e)
]

-- The route found is in the list of the name, and provides the endpoint.
find_in_sound : (draw : ℕ) (refs ps : List ℕ) (r : ℕ) → find_in draw refs ps ≡ ok r → Memᴰ r ps
find_in_sound draw [] ps r e = cc
find_in_sound draw (ref ∷ refs) [] r e = cc
find_in_sound draw (ref ∷ refs) (p ∷ ps) r e =
    let (r', at) = get_elem?-lt-length (p ∷ ps) (draw % length (p ∷ ps)) (omega arith) in
    mem_of_get_elem? (p ∷ ps) (draw % length (p ∷ ps)) r (ground arith)

find_in_complete :
    (refs ps : List ℕ) (r : ℕ) → refs ≢ [] → Memᴰ r ps → (draw : ℕ) × (find_in draw refs ps ≡ ok r)
find_in_complete [] ps r some_route m = absurd (some_route refl)
find_in_complete (ref ∷ refs) [] r some_route m = elim m [ ]
find_in_complete (ref ∷ refs) (p ∷ ps) r some_route m =
    let (i, lt, at) = get_elem?_of_mem (p ∷ ps) r m in (i, ground (arith, mod-eq_of_lt lt))

find_in-ne-panic : (draw : ℕ) (refs ps : List ℕ) → find_in draw refs ps ≢ panic
find_in-ne-panic draw [] ps e = cc
find_in-ne-panic draw (ref ∷ refs) [] e = cc
find_in-ne-panic draw (ref ∷ refs) (p ∷ ps) e =
    let (r', at) = get_elem?-lt-length (p ∷ ps) (draw % length (p ∷ ps)) (omega arith) in
    ground arith

-- A route can be chosen, by some draw, exactly if it is in the list of the name that is searched for
-- and provides the endpoint; and whatever is drawn, the choice is made without a panic.
pub find_service-eq-ok_iff :
    (ep : Search) (s : ConnectedRoutes) (r : ℕ)
    → (((draw : ℕ) × (find_service draw ep s ≡ ok r))
        ↔ (Memᴰ r (list_of ep.name s) × Provides s.routes ep r))
      × ((draw : ℕ) → find_service draw ep s ≢ panic)
find_service-eq-ok_iff ep s r = (
  (
    λ (draw, e).
        mem_of_mem-providers s.routes ep (list_of ep.name s) r
          (find_in_sound draw (list_of ep.name s) _ r (rw (← find_service-find_in draw ep s) e)),
    λ (m, p).
        let (draw, e) =
          find_in_complete (list_of ep.name s) (providers s.routes ep (list_of ep.name s)) r
            (λ empty. elim (rw empty at m) [ ])
            (mem-providers s.routes ep (list_of ep.name s) r m p) in
        (draw, find_service-find_in draw ep s ∙ e),
  ),
  λ draw e. find_in-ne-panic draw (list_of ep.name s) _ (rw (find_service-find_in draw ep s) at e),
)
