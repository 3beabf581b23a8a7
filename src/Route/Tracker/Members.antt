-- ===== src/Route/Tracker/Members.antt =====
-- How `Add` and `Remove` change the list of a name.
use oes_birger.Prelude.{
  ℕ, zero, suc, ◌+◌, ◌-◌, ◌≤◌, String, ◌≡◌, refl, ap, ◌∙◌, List, [], ◌∷◌, ◌++◌, none, some, lookup,
  lookup-insert, length, get_elem?, set, take, if◌then◌else◌, eqb, eq_iff, ◌==◌, arith,
  Option-cases, Bool-cases, get_elem?-lt-length, inl, inr,
}
use oes_birger.Channel.{update}
use oes_birger.Route.Direct.{DirectlyConnectedRoute, close_route}
use oes_birger.Route.Tracker.{
  ConnectedRoutes, list_of, slice_index, swap_remove, add, take_out, remove,
}

-- How often a route stands in a list.
abbrev pub count : ℕ → List ℕ → ℕ
count r [] = 0
count r (x ∷ xs) = if eqb x r then suc (count r xs) else count r xs

pub count-append : (r : ℕ) (xs ys : List ℕ) → count r (xs ++ ys) ≡ count r xs + count r ys
count-append r [] ys = omega arith
count-append r (x ∷ xs) ys = ground (arith, count-append r xs ys)

abbrev pub hit : ℕ → ℕ → ℕ
hit x r = if eqb x r then 1 else 0

count-take_init :
    (r n end : ℕ) (xs : List ℕ)
    → length xs ≡ suc n
    → get_elem? xs n ≡ some end
    → count r (take n xs) + hit end r ≡ count r xs
count-take_init r n end [] l e = cc
count-take_init r zero end (x ∷ []) l e = ground arith
count-take_init r zero end (x ∷ y ∷ xs) l e = absurd (omega arith)
count-take_init r (suc n) end (x ∷ xs) l e = ground (arith, count-take_init r n end xs)

-- The end of the list in the place of the entry at `i`, and the list without its end: one entry less.
count-take-set :
    (r n end i x : ℕ) (xs : List ℕ)
    → length xs ≡ suc n
    → get_elem? xs n ≡ some end
    → get_elem? xs i ≡ some x
    → count r (take n (set xs i end)) + hit x r ≡ count r xs
count-take-set r n end i x [] l e at = cc
count-take-set r zero end zero x (y ∷ []) l e at = ground arith
count-take-set r zero end (suc i) x (y ∷ []) l e at = cc
count-take-set r zero end i x (y ∷ z ∷ xs) l e at = absurd (omega arith)
count-take-set r (suc n) end zero x (y ∷ xs) l e at = ground (arith, count-take_init r n end xs)
count-take-set r (suc n) end (suc i) x (y ∷ xs) l e at =
    ground (arith, count-take-set r n end i x xs)

length-take : (n : ℕ) (xs : List ℕ) → length xs ≡ suc n → length (take n xs) ≡ n
length-take n [] l = cc
length-take zero (x ∷ xs) l = refl
length-take (suc n) (x ∷ xs) l = ground (arith, length-take n xs)

length-take-set : (n i v : ℕ) (xs : List ℕ) → length xs ≡ suc n → length (take n (set xs i v)) ≡ n
length-take-set n i v [] l = cc
length-take-set zero i v (x ∷ xs) l = refl
length-take-set (suc n) zero v (x ∷ xs) l = ground (arith, length-take n xs)
length-take-set (suc n) (suc i) v (x ∷ xs) l = ground (arith, length-take-set n i v xs)

slice_index-some :
    (j r i : ℕ) (xs : List ℕ)
    → slice_index j xs r ≡ some i
    → (j ≤ i) × (get_elem? xs (i - j) ≡ some r)
unfolding slice_index
slice_index-some j r i [] e = cc
slice_index-some j r i (x ∷ xs) e = elim (Bool-cases (eqb x r)) [
  | inl here ↦
      let e' = rw (here, slice_index) at e in
      let z : i - j ≡ 0 = ground arith in (ground arith, rw z (ground arith))
  | inr there ↦
      let (le, at) = slice_index-some (j + 1) r i xs (rw (there, slice_index) at e) in
      let z : i - j ≡ suc (i - (j + 1)) = omega arith in (omega arith, rw z at)
]

slice_index-none : (j r : ℕ) (xs : List ℕ) → slice_index j xs r ≡ none → count r xs ≡ 0
unfolding slice_index
slice_index-none j r [] e = refl
slice_index-none j r (x ∷ xs) e = ground (arith, slice_index-none (j + 1) r xs)

last_of : (xs : List ℕ) (x : ℕ) (i : ℕ) → get_elem? xs i ≡ some x → (n : ℕ) × (length xs ≡ suc n)
last_of [] x i e = cc
last_of (y ∷ xs) x i e = (length xs, refl)

swap_remove_at :
    (i n end : ℕ) (xs : List ℕ)
    → length xs ≡ suc n
    → get_elem? xs n ≡ some end
    → swap_remove xs i ≡ take n (set xs i end)
unfolding swap_remove
swap_remove_at i n end xs l e =
    let z : length xs - 1 ≡ n = omega arith in
    let at_end : get_elem? xs (length xs - 1) ≡ some end = rw z e in
    rw (at_end, swap_remove) (rw z refl)

-- One entry of the removed route is gone, and nothing else.
pub swap_remove_lem :
    (a i x : ℕ) (xs : List ℕ)
    → get_elem? xs i ≡ some x
    → (count a (swap_remove xs i) + hit x a ≡ count a xs)
      × (length (swap_remove xs i) + 1 ≡ length xs)
swap_remove_lem a i x xs at =
    let (n, l) = last_of xs x i at in
    let (end, e) = get_elem?-lt-length xs n (omega arith) in
    rw (swap_remove_at i n end xs l e)
      (count-take-set a n end i x xs l e at, omega (arith, length-take-set n i end xs l))

module _ (state : ℕ) (s : ConnectedRoutes) where
  abbrev pub name_of : String
  name_of = (s.routes state).name

  pub list_of-add :
      (n : String)
      → list_of n (add state s) ≡ (if name_of == n then list_of n s ++ state ∷ [] else list_of n s)
  unfolding list_of add
  list_of-add n =
      ground
        (arith, eq_iff name_of n, lookup-insert name_of n (list_of name_of s ++ state ∷ []) s.m)

  pub take_out_absent : lookup name_of s.m ≡ none → take_out state s ≡ s
  unfolding take_out
  take_out_absent e = rw (e, take_out)

  pub take_out_unlisted :
      (refs : List ℕ)
      → lookup name_of s.m ≡ some refs
      → slice_index 0 refs state ≡ none
      → take_out state s ≡ s
  unfolding take_out
  take_out_unlisted refs e i = rw (e, take_out) (rw (i, take_out))

  pub list_of-take_out_listed :
      (refs : List ℕ) (i : ℕ) (n : String)
      → lookup name_of s.m ≡ some refs
      → slice_index 0 refs state ≡ some i
      → list_of n (take_out state s) ≡ (if name_of == n then swap_remove refs i else list_of n s)
  unfolding take_out list_of
  list_of-take_out_listed refs i n e at =
      rw (e, take_out)
        (rw (at, take_out)
          (ground (arith, eq_iff name_of n, lookup-insert name_of n (swap_remove refs i) s.m)))

  count_unlisted :
      (n : String) (r : ℕ)
      → count state (list_of name_of s) ≡ 0
      → count r (list_of n s) ≡ count r (list_of n s) - (if name_of == n then hit state r else 0)
  count_unlisted n r h = ground (arith, eq_iff name_of n)

  pub found_at :
      (refs : List ℕ) (i : ℕ) → slice_index 0 refs state ≡ some i → get_elem? refs i ≡ some state
  found_at refs i at =
      let z : i - 0 ≡ i = omega arith in rw z at (slice_index-some 0 state i refs at).1

  pub list_of-some : (n : String) (refs : List ℕ) → lookup n s.m ≡ some refs → list_of n s ≡ refs
  unfolding list_of
  list_of-some n refs e = rw (e, list_of)

  list_of-none : (n : String) → lookup n s.m ≡ none → list_of n s ≡ []
  unfolding list_of
  list_of-none n e = rw (e, list_of)

  -- Taking a route out of the list takes out one entry of it, if there is one.
  pub count-take_out :
      (n : String) (r : ℕ)
      → count r (list_of n (take_out state s))
        ≡ count r (list_of n s) - (if name_of == n then hit state r else 0)
  count-take_out n r = elim (Option-cases (lookup name_of s.m)) [
    | inl e ↦
        rw (take_out_absent e) (count_unlisted n r (ap (count state) (list_of-none name_of e)))
    | inr (refs, e) ↦ elim (Option-cases (slice_index 0 refs state)) [
      | inl at ↦ rw (take_out_unlisted refs e at) (
          count_unlisted n r
            (ap (count state) (list_of-some name_of refs e) ∙ slice_index-none 0 state refs at))
      | inr (i, at) ↦ rw (list_of-take_out_listed refs i n e at) (
          ground (
            arith,
            eq_iff name_of n,
            list_of-some name_of refs e,
            swap_remove_lem r i state refs (found_at refs i at),
          ))
    ]
  ]

  -- A removal that does not panic closes the route and takes it out of the list.
  pub remove-inv :
      (s' : ConnectedRoutes)
      → remove state s ≡ some s'
      → (closed : DirectlyConnectedRoute) × (close_route (s.routes state) ≡ some closed)
        × (s' ≡ take_out state (record s { routes = update s.routes state closed }))
  unfolding remove
  remove-inv s' e = elim (Option-cases (close_route (s.routes state))) [
    | inl p ↦ absurd (ground arith)
    | inr (closed, p) ↦ (closed, p, ground arith)
  ]
