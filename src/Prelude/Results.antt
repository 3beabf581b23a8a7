-- ===== src/Prelude/Results.antt =====
-- What a Go call can come to: a value, an error, or a panic that no handler of the model stops.
use mathlib.Core.Path.{◌≡◌, refl}
use mathlib.Core.Logic.{◌≢◌}

pub data Result {ℓ} (E : Type 0) (A : Type ℓ) : Type ℓ where
  panic : Result E A
  err : E → Result E A
  ok : A → Result E A

infixl 5 ◌>>=◌
abbrev pub ◌>>=◌ {ℓ κ} :
    {E : Type 0} {A : Type ℓ} {B : Type κ} → Result E A → (A → Result E B) → Result E B
panic >>= next = panic
err cause >>= next = err cause
ok value >>= next = next value

-- A chain that comes to a value has come to one at its first step.
pub >>=-eq-ok {ℓ κ} :
    {E : Type 0} {A : Type ℓ} {B : Type κ} (first : Result E A) (next : A → Result E B) {end : B}
    → (first >>= next) ≡ ok end
    → (value : A) × (first ≡ ok value) × (next value ≡ ok end)
>>=-eq-ok panic next reached = cc
>>=-eq-ok (err cause) next reached = cc
>>=-eq-ok (ok value) next reached = (value, refl, reached)

-- A property of the value, where there is one.
abbrev pub Ensures {ℓ κ} : {E : Type 0} {A : Type ℓ} → (A → Type κ) → Result E A → Type κ
Ensures P (ok a) = P a
Ensures P (err e) = Unit
Ensures P panic = Unit

pub Ensures->>= {ℓ κ μ} :
    {E : Type 0} {A : Type ℓ} {B : Type κ} (P : A → Type μ) (Q : B → Type μ) (m : Result E A)
    (f : A → Result E B)
    → Ensures P m
    → ((a : A) → P a → Ensures Q (f a))
    → Ensures Q (m >>= f)
Ensures->>= P Q (ok a) f h k = k a h
Ensures->>= P Q (err e) f h k = tt
Ensures->>= P Q panic f h k = tt

-- The same outcome, with its error in the words of the caller.
abbrev pub map_err {ℓ} : {E F : Type 0} {A : Type ℓ} → (E → F) → Result E A → Result F A
map_err f panic = panic
map_err f (err cause) = err (f cause)
map_err f (ok value) = ok value

pub map_err->>=-eq-ok {ℓ κ} :
    {E F : Type 0} {A : Type ℓ} {B : Type κ} (f : E → F) (first : Result E A)
    (next : A → Result F B) {end : B}
    → (map_err f first >>= next) ≡ ok end
    → (value : A) × (first ≡ ok value) × (next value ≡ ok end)
map_err->>=-eq-ok f panic next reached = cc
map_err->>=-eq-ok f (err cause) next reached = cc
map_err->>=-eq-ok f (ok value) next reached = (value, refl, reached)

pub >>=-ne-panic {ℓ κ} :
    {E : Type 0} {A : Type ℓ} {B : Type κ} (first : Result E A) (next : A → Result E B)
    → first ≢ panic
    → ((value : A) → next value ≢ panic)
    → (first >>= next) ≢ panic
>>=-ne-panic panic next safe after reached = safe refl
>>=-ne-panic (err cause) next safe after reached = cc reached
>>=-ne-panic (ok value) next safe after reached = after value reached

-- The same, handing the value on to the rest of a proof, where it stays a variable.
pub >>=-elim {ℓ κ μ} :
    {E : Type 0} {A : Type ℓ} {B : Type κ} {P : Type μ} (first : Result E A) (next : A → Result E B)
    {end : B}
    → (first >>= next) ≡ ok end
    → ((value : A) → first ≡ ok value → next value ≡ ok end → P)
    → P
>>=-elim first next reached use_parts =
    let (value, made, went_on) = >>=-eq-ok first next reached in use_parts value made went_on

pub map_err->>=-elim {ℓ κ μ} :
    {E F : Type 0} {A : Type ℓ} {B : Type κ} {P : Type μ} (f : E → F) (first : Result E A)
    (next : A → Result F B) {end : B}
    → (map_err f first >>= next) ≡ ok end
    → ((value : A) → first ≡ ok value → next value ≡ ok end → P)
    → P
map_err->>=-elim f first next reached use_parts =
    let (value, made, went_on) = map_err->>=-eq-ok f first next reached in
    use_parts value made went_on
