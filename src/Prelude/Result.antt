-- ===== src/Prelude/Result.antt =====
-- How a C function ends, beyond returning: a call of exit(), undefined behaviour, or a loop
-- that its fuel does not cover.

pub data Outcome {ℓ} (A : Type ℓ) : Type ℓ where
  -- the function returns
  ok : A → Outcome A
  -- `exit(EXIT_FAILURE)`
  exited : Outcome A
  -- a read or write through a null or freed pointer or outside a block, or a second free
  fault : Outcome A
  -- the fuel of a loop ran out
  looping : Outcome A

infixl 5 ◌>>=◌
abbrev pub ◌>>=◌ {ℓ κ} : {A : Type ℓ} {B : Type κ} → Outcome A → (A → Outcome B) → Outcome B
ok a >>= f = f a
exited >>= f = exited
fault >>= f = fault
looping >>= f = looping

-- The outcome is a return of a value with `P`.
abbrev pub Returns {ℓ} : {A : Type ℓ} → (A → Type 0) → Outcome A → Type 0
Returns P (ok a) = P a
Returns P exited = ⊥
Returns P fault = ⊥
Returns P looping = ⊥

-- Nothing is undefined and no fuel runs out; where the outcome is a return, the value has `P`.
abbrev pub Safe {ℓ} : {A : Type ℓ} → (A → Type 0) → Outcome A → Type 0
Safe P (ok a) = P a
Safe P exited = Unit
Safe P fault = ⊥
Safe P looping = ⊥

pub Safe-bind {ℓ κ} :
    {A : Type ℓ} {B : Type κ} (P : A → Type 0) (Q : B → Type 0) (m : Outcome A) (f : A → Outcome B)
    → Safe P m
    → ((a : A) → P a → Safe Q (f a))
    → Safe Q (m >>= f)
Safe-bind P Q (ok a) f h k = k a h
Safe-bind P Q exited f h k = tt
Safe-bind P Q fault f h k = h
Safe-bind P Q looping f h k = h

pub Returns-bind {ℓ κ} :
    {A : Type ℓ} {B : Type κ} (P : A → Type 0) (Q : B → Type 0) (m : Outcome A) (f : A → Outcome B)
    → Returns P m
    → ((a : A) → P a → Returns Q (f a))
    → Returns Q (m >>= f)
Returns-bind P Q (ok a) f h k = k a h
Returns-bind P Q exited f h k = absurd h
Returns-bind P Q fault f h k = absurd h
Returns-bind P Q looping f h k = absurd h

pub Returns-Safe {ℓ} : {A : Type ℓ} (P : A → Type 0) (m : Outcome A) → Returns P m → Safe P m
Returns-Safe P (ok a) h = h
Returns-Safe P exited h = tt
Returns-Safe P fault h = h
Returns-Safe P looping h = h

pub Safe-weaken {ℓ} :
    {A : Type ℓ} (P Q : A → Type 0) (m : Outcome A) → Safe P m → ((a : A) → P a → Q a) → Safe Q m
Safe-weaken P Q (ok a) h k = k a h
Safe-weaken P Q exited h k = tt
Safe-weaken P Q fault h k = h
Safe-weaken P Q looping h k = h

-- Where the outcome is a return, the value has `P`.
abbrev pub Yields {ℓ} : {A : Type ℓ} → (A → Type 0) → Outcome A → Type 0
Yields P (ok a) = P a
Yields P exited = Unit
Yields P fault = Unit
Yields P looping = Unit

pub Yields-bind {ℓ κ} :
    {A : Type ℓ} {B : Type κ} (P : B → Type 0) (m : Outcome A) (f : A → Outcome B)
    → ((a : A) → Yields P (f a))
    → Yields P (m >>= f)
Yields-bind P (ok a) f h = h a
Yields-bind P exited f h = tt
Yields-bind P fault f h = tt
Yields-bind P looping f h = tt

-- The same, where what the first part yields is known.
pub Yields-then {ℓ κ} :
    {A : Type ℓ} {B : Type κ} (Q : A → Type 0) (P : B → Type 0) (m : Outcome A) (f : A → Outcome B)
    → Yields Q m
    → ((a : A) → Q a → Yields P (f a))
    → Yields P (m >>= f)
Yields-then Q P (ok a) f q h = h a q
Yields-then Q P exited f q h = tt
Yields-then Q P fault f q h = tt
Yields-then Q P looping f q h = tt

pub Yields-weaken {ℓ} :
    {A : Type ℓ} (Q P : A → Type 0) (m : Outcome A)
    → Yields Q m
    → ((a : A) → Q a → P a)
    → Yields P m
Yields-weaken Q P (ok a) q h = h a q
Yields-weaken Q P exited q h = tt
Yields-weaken Q P fault q h = tt
Yields-weaken Q P looping q h = tt

abbrev pub Both {ℓ} : {A : Type ℓ} → (A → Type 0) → (A → Type 0) → A → Type 0
Both P Q a = P a × Q a

pub Safe-Yields {ℓ} :
    {A : Type ℓ} (P Q : A → Type 0) (m : Outcome A) → Safe P m → Yields Q m → Safe (Both P Q) m
Safe-Yields P Q (ok a) p q = (p, q)
Safe-Yields P Q exited p q = tt
Safe-Yields P Q fault p q = p
Safe-Yields P Q looping p q = p
