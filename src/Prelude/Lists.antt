-- ===== src/Prelude/Lists.antt =====
-- Lists measured and indexed by native numbers, under the library's names.
use Prim.Native.Nat.{ℕ, zero, suc, ◌+◌, ◌<◌}
use mathlib.Core.Path.{◌≡◌, refl}
use mathlib.Core.List.{List, [], ◌∷◌, ◌++◌, Memᴰ}
use mathlib.Core.Option.{Option, none, some}
use native.Mathlib.Omega.{arith}

module _ {ℓ} {A : Type ℓ} where
  abbrev pub length : List A → ℕ
  length [] = 0
  length (x ∷ xs) = suc (length xs)

  abbrev pub get_elem? : List A → ℕ → Option A
  get_elem? [] i = none
  get_elem? (x ∷ xs) zero = some x
  get_elem? (x ∷ xs) (suc i) = get_elem? xs i

  -- A write out of bounds changes nothing.
  abbrev pub set : List A → ℕ → A → List A
  set [] i v = []
  set (x ∷ xs) zero v = v ∷ xs
  set (x ∷ xs) (suc i) v = x ∷ set xs i v

  abbrev pub take : ℕ → List A → List A
  take zero xs = []
  take (suc n) [] = []
  take (suc n) (x ∷ xs) = x ∷ take n xs

  pub length-append : (xs ys : List A) → length (xs ++ ys) ≡ length xs + length ys
  length-append [] ys = omega arith
  length-append (x ∷ xs) ys = omega (arith, length-append xs ys)

-- What holds of each item, and of some item.
module _ {ℓ κ} {A : Type ℓ} (P : A → Type κ) where
  abbrev pub All : List A → Type κ
  All [] = Unit
  All (x ∷ xs) = P x × All xs

  pub All-append : (xs ys : List A) → All xs → All ys → All (xs ++ ys)
  All-append [] ys hx hy = hy
  All-append (x ∷ xs) ys hx hy = (hx.0, All-append xs ys hx.1 hy)

module _ {ℓ} {A : Type ℓ} where
  pub get_elem?-lt-length :
      (xs : List A) (i : ℕ) → i < length xs → (a : A) × (get_elem? xs i ≡ some a)
  get_elem?-lt-length [] i h = elim h [ ]
  get_elem?-lt-length (x ∷ xs) zero h = (x, refl)
  get_elem?-lt-length (x ∷ xs) (suc i) h = get_elem?-lt-length xs i (omega arith)

  pub mem_of_get_elem? : (xs : List A) (i : ℕ) (a : A) → get_elem? xs i ≡ some a → Memᴰ a xs
  mem_of_get_elem? [] i a e = cc
  mem_of_get_elem? (x ∷ xs) zero a e = Memᴰ.head (ground arith)
  mem_of_get_elem? (x ∷ xs) (suc i) a e = Memᴰ.tail (mem_of_get_elem? xs i a e)

  pub get_elem?_of_mem :
      (xs : List A) (a : A) → Memᴰ a xs → (i : ℕ) × (i < length xs) × (get_elem? xs i ≡ some a)
  get_elem?_of_mem [] a h = elim h [ ]
  get_elem?_of_mem (x ∷ xs) a (Memᴰ.head e) = (0, omega arith, ground arith)
  get_elem?_of_mem (x ∷ xs) a (Memᴰ.tail h) =
      let (i, lt, e) = get_elem?_of_mem xs a h in (suc i, omega arith, e)
