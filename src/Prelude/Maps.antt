-- ===== src/Prelude/Maps.antt =====
-- A Go map with text keys, as an association list: `lookup` is `m[k]` with its found flag,
-- `insert` is `m[k] = v`, `delete` is `delete(m, k)`.
use Prim.Native.String.{String}
use mathlib.Core.Path.{◌≡◌, refl}
use mathlib.Core.Option.{Option, none, some}
use mathlib.Core.List.{List, [], ◌∷◌, ◌++◌}
use native.Mathlib.Omega.{arith}
use text.Mathlib.Text.{◌==◌}
use text.Mathlib.TextEquality.{eq_iff}
use text.Mathlib.TextPositions.{eq_refl}
use oes_birger.Prelude.Tests.{if◌then◌else◌}

module _ {ℓ} {V : Type ℓ} where
  unfoldable pub lookup : String → List (String × V) → Option V
  lookup key [] = none
  lookup key ((name, value) ∷ rest) = if name == key then some value else lookup key rest

  unfoldable pub delete : String → List (String × V) → List (String × V)
  delete k [] = []
  delete k ((j, w) ∷ m) = let rest = delete k m in if j == k then rest else (j, w) ∷ rest

  unfoldable pub insert : String → V → List (String × V) → List (String × V)
  insert key value [] = (key, value) ∷ []
  insert key value ((name, old) ∷ rest) =
      let others = insert key value rest in
      if name == key then (key, value) ∷ rest else (name, old) ∷ others

  pub lookup-insert :
      (key name : String) (value : V) (entries : List (String × V))
      → lookup name (insert key value entries)
        ≡ (if key == name then some value else lookup name entries)
  unfolding lookup insert
  lookup-insert key name value [] = refl
  lookup-insert key name value ((other, old) ∷ rest) = ground (
    arith,
    eq_iff key name,
    eq_iff other key,
    eq_iff other name,
    lookup-insert key name value rest,
  )

  pub lookup-delete :
      (k j : String) (m : List (String × V))
      → lookup j (delete k m) ≡ (if k == j then none else lookup j m)
  unfolding lookup delete
  lookup-delete k j [] = ground arith
  lookup-delete k j ((i, w) ∷ m) =
      ground (arith, eq_iff k j, eq_iff i k, eq_iff i j, lookup-delete k j m)

  pub insert_absent :
      (k : String) (v : V) (m : List (String × V))
      → lookup k m ≡ none
      → insert k v m ≡ m ++ (k, v) ∷ []
  unfolding lookup insert
  insert_absent k v [] h = refl
  insert_absent k v ((j, w) ∷ m) h = ground (arith, insert_absent k v m)

  -- A write to the key that was inserted last leaves the others where they are.
  pub insert-append_last :
      (k : String) (v w : V) (m : List (String × V))
      → lookup k m ≡ none
      → insert k w (m ++ (k, v) ∷ []) ≡ m ++ (k, w) ∷ []
  unfolding lookup insert
  insert-append_last k v w [] h = ground (arith, eq_refl k)
  insert-append_last k v w ((j, u) ∷ m) h = ground (arith, insert-append_last k v w m)

  pub lookup-append_last :
      (k j : String) (v : V) (m : List (String × V))
      → lookup k m ≡ none
      → lookup j (m ++ (k, v) ∷ []) ≡ (if k == j then some v else lookup j m)
  unfolding lookup
  lookup-append_last k j v [] h = refl
  lookup-append_last k j v ((i, w) ∷ m) h =
      ground (arith, eq_iff k j, eq_iff i k, eq_iff i j, lookup-append_last k j v m)
