-- ===== src/Base/Faults.antt =====
-- Code that can stop: a failed `assert`, an exception, or behaviour that C++ leaves undefined.
use mathlib.Core.Bool.{Bool, true, false}
use mathlib.Core.Path.{◌≡◌, refl}

pub data Fault : Type 0 where
  -- an `assert` that does not hold
  assertion : Fault
  -- a C++ exception that leaves the function
  thrown : Fault
  -- an index past the end, a null pointer or an end iterator that is used
  undefined : Fault
  -- the bound on the model's steps was met
  out_of_fuel : Fault

pub data Outcome {ℓ} (A : Type ℓ) : Type ℓ where
  ok : A → Outcome A
  stop : Fault → Outcome A

infixl 5 ◌>>=◌ ◌>>◌
abbrev pub ◌>>=◌ {ℓ κ} : {A : Type ℓ} {B : Type κ} → Outcome A → (A → Outcome B) → Outcome B
ok a >>= f = f a
stop e >>= f = stop e

abbrev pub ◌>>◌ {ℓ} : {B : Type ℓ} → Outcome (Unit {0}) → Outcome B → Outcome B
m >> k = m >>= λ _. k

abbrev pub assert : Bool → Outcome (Unit {0})
assert true = ok tt
assert false = stop assertion

abbrev pub ensure : Bool → Fault → Outcome (Unit {0})
ensure true e = ok tt
ensure false e = stop e

-- The value is reached, and satisfies `P`.
abbrev pub Returns {ℓ} : {A : Type ℓ} → (A → Type 0) → Outcome A → Type 0
Returns P (ok a) = P a
Returns P (stop e) = ⊥

-- The rule for a chain of two steps.
pub Returns-bind {ℓ κ} :
    {A : Type ℓ} {B : Type κ} (P : A → Type 0) (Q : B → Type 0) (r : Outcome A) (f : A → Outcome B)
    → Returns P r
    → ((a : A) → P a → Returns Q (f a))
    → Returns Q (r >>= f)
Returns-bind P Q (ok a) f p h = h a p
Returns-bind P Q (stop e) f p h = absurd p

-- The rule for a weaker claim on the same value.
pub Returns-weaken {ℓ} :
    {A : Type ℓ} (P Q : A → Type 0) (r : Outcome A)
    → Returns P r
    → ((a : A) → P a → Q a)
    → Returns Q r
Returns-weaken P Q (ok a) p h = h a p
Returns-weaken P Q (stop e) p h = absurd p

pub Returns-value {ℓ} :
    {A : Type ℓ} (P : A → Type 0) (r : Outcome A) → Returns P r → (a : A) × (r ≡ ok a) × P a
Returns-value P (ok a) p = (a, refl, p)
Returns-value P (stop e) p = absurd p

-- Two claims on the same value.
pub Returns-both {ℓ} :
    {A : Type ℓ} (P Q : A → Type 0) (r : Outcome A)
    → Returns P r
    → Returns Q r
    → Returns (λ a. P a × Q a) r
Returns-both P Q (ok a) p q = (p, q)
Returns-both P Q (stop e) p q = absurd p
