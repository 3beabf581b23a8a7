-- ===== src/Route/Roster.antt =====
-- What the table of routes promises, without the order of its lists: under each name a bag of routes.
-- `Add` puts a route into the bag of its name, `Remove` takes one out. The bag is a quotient of lists.
pub mod Refines
use oes_birger.Prelude.{
  ℕ, ◌+◌, ◌-◌, ◌<◌, String, ◌==◌, eq_iff, ◌≡◌, refl, ap, ◌∙◌, sym, List, [], ◌∷◌, ◌++◌, Option,
  none, some, if◌then◌else◌, eqb, arith, Memᴰ, Bool, true, false, Bool-cases, Option-cases, inl,
  inr, ◌↔◌, Result, ok, lookup,
}
use mathlib.Core.Path.{fun_ext}
use mathlib.Core.Quot
use mathlib.Core.Quot.{Quot, Quot-set}
use native.Mathlib.Nat.{ℕ_set}
use oes_birger.Channel.{update, close}
use oes_birger.Route.Direct.{DirectlyConnectedRoute, Search, close_route}
use oes_birger.Route.Tracker.{
  ConnectedRoutes, make_routes, list_of, slice_index, add, take_out, remove, find_service,
}
use oes_birger.Route.Tracker.Members.{
  count, count-append, hit, list_of-add, count-take_out, name_of, remove-inv,
}
use oes_birger.Route.Tracker.Gauge.{Op, adds, removes, edits, step, run}
use oes_birger.Route.Tracker.Find.{Provides, find_service-eq-ok_iff}

abbrev pub SameRoutes : List ℕ → List ℕ → Type 0
SameRoutes xs ys = (r : ℕ) → count r xs ≡ count r ys

abbrev pub Bag : Type 0
Bag = Quot SameRoutes

abbrev pub erase : ℕ → List ℕ → List ℕ
erase r [] = []
erase r (x ∷ xs) = let rest = erase r xs in if eqb x r then xs else x ∷ rest

pub count-erase : (a r : ℕ) (xs : List ℕ) → count a (erase r xs) ≡ count a xs - hit r a
count-erase a r [] = ground arith
count-erase a r (x ∷ xs) = ground (arith, count-erase a r xs)

pub cons-SameRoutes : (r : ℕ) (xs ys : List ℕ) → SameRoutes xs ys → SameRoutes (r ∷ xs) (r ∷ ys)
cons-SameRoutes r xs ys h a = ground (arith, h a)

pub erase-SameRoutes :
    (r : ℕ) (xs ys : List ℕ) → SameRoutes xs ys → SameRoutes (erase r xs) (erase r ys)
erase-SameRoutes r xs ys h a = omega (arith, h a, count-erase a r xs, count-erase a r ys)

unfoldable pub put : ℕ → Bag → Bag
put r =
    Quot.lift Quot-set (λ xs. Quot.mk (r ∷ xs)) (λ xs ys h. Quot.sound (cons-SameRoutes r xs ys h))

-- One occurrence less, if there is one.
unfoldable pub drop : ℕ → Bag → Bag
drop r =
    Quot.lift Quot-set (λ xs. Quot.mk (erase r xs))
      (λ xs ys h. Quot.sound (erase-SameRoutes r xs ys h))

unfoldable pub occurrences : ℕ → Bag → ℕ
occurrences r = Quot.lift ℕ_set (count r) (λ xs ys h. h r)

-- The names that the route objects carry, and the bag of each name.
pub record Roster : Type 0 where
  pub names : ℕ → String
  pub bags : String → Bag

unfoldable pub change_bag : String → (Bag → Bag) → (String → Bag) → String → Bag
change_bag name f bags n = if name == n then f (bags n) else bags n

unfoldable pub roster_step : Op → Roster → Roster
unfolding put drop change_bag
roster_step (adds r) ro = record ro { bags = change_bag (ro.names r) (put r) ro.bags }
roster_step (removes r) ro = record ro { bags = change_bag (ro.names r) (drop r) ro.bags }
roster_step (edits routes) ro = record ro { names = λ r. (routes r).name }

unfoldable pub roster_run : List Op → Roster → Roster
unfolding roster_step
roster_run [] ro = ro
roster_run (op ∷ ops) ro = roster_run ops (roster_step op ro)

-- The roster that a table of routes stands for.
unfoldable pub roster : ConnectedRoutes → Roster
roster s = record { names = λ r. (s.routes r).name; bags = λ n. Quot.mk (list_of n s) }
