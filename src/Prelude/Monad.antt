-- ===== src/Prelude/Monad.antt =====
-- Chains of fallible steps.
use mathlib.Core.Path.{◌≡◌, refl}
use mathlib.Core.Option.{Option, none, some}

infixl 5 ◌>>=◌
abbrev pub ◌>>=◌ {ℓ κ} : {A : Type ℓ} {B : Type κ} → Option A → (A → Option B) → Option B
none >>= f = none
some a >>= f = f a

-- Inversion of a successful chain.
pub >>=-eq-some {ℓ κ} :
    {A : Type ℓ} {B : Type κ} (m : Option A) (f : A → Option B) {b : B}
    → (m >>= f) ≡ some b
    → (a : A) × (m ≡ some a) × (f a ≡ some b)
>>=-eq-some none f h = cc
>>=-eq-some (some a) f h = (a, refl, h)

-- A step of a chain whose result is known.
pub >>=-of_some {ℓ κ} :
    {A : Type ℓ} {B : Type κ} {m : Option A} {a : A} (f : A → Option B)
    → m ≡ some a
    → (m >>= f) ≡ f a
>>=-of_some f e = rw (e, ◌>>=◌)

pub >>=-of_none {ℓ κ} :
    {A : Type ℓ} {B : Type κ} {m : Option A} (f : A → Option B) → m ≡ none → (m >>= f) ≡ none
>>=-of_none f e = rw (e, ◌>>=◌)
