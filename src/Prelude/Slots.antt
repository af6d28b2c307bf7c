-- ===== src/Prelude/Slots.antt =====
-- Lists as arrays that are written at a place, and lists of bits.
use Prim.Native.Nat.{ℕ, zero, suc, ◌+◌, ◌*◌, ◌<◌}
use mathlib.Core.Path.{◌≡◌, refl, ap}
use mathlib.Core.Logic.{◌⊎◌, inl, inr}
use mathlib.Core.Bool.{Bool, false, ◌||◌}
use mathlib.Core.Option.{Option, none, some}
use mathlib.Core.List.{List, [], ◌∷◌}
use native.Mathlib.Omega.{arith}
use br_external.Prelude.Lists.{length, get_elem?, get_or, replicate, All}
use br_external.Prelude.Tests.{if◌then◌else◌, ◌==◌}

module _ {ℓ} {A : Type ℓ} where
  -- A write out of bounds changes nothing.
  abbrev pub set : List A → ℕ → A → List A
  set [] i v = []
  set (x ∷ xs) zero v = v ∷ xs
  set (x ∷ xs) (suc i) v = x ∷ set xs i v

  -- `list_del` of the node at a place.
  abbrev pub remove_at : List A → ℕ → List A
  remove_at [] i = []
  remove_at (x ∷ xs) zero = xs
  remove_at (x ∷ xs) (suc i) = x ∷ remove_at xs i

  pub length-set : (xs : List A) (i : ℕ) (v : A) → length (set xs i v) ≡ length xs
  length-set [] i v = refl
  length-set (x ∷ xs) zero v = refl
  length-set (x ∷ xs) (suc i) v = ap suc (length-set xs i v)

  pub get_or-set :
      (xs : List A) (i j : ℕ) (v d : A)
      → i < length xs
      → get_or (set xs i v) j d ≡ (if i == j then v else get_or xs j d)
  get_or-set [] i j v d h = absurd (omega arith)
  get_or-set (x ∷ xs) zero zero v d h = ground arith
  get_or-set (x ∷ xs) zero (suc j) v d h = ground arith
  get_or-set (x ∷ xs) (suc i) zero v d h = ground arith
  get_or-set (x ∷ xs) (suc i) (suc j) v d h = ground (arith, get_or-set xs i j v d)

pub get_or-replicate {ℓ} : {A : Type ℓ} (n i : ℕ) (a : A) → get_or (replicate n a) i a ≡ a
get_or-replicate zero i a = refl
get_or-replicate (suc n) zero a = refl
get_or-replicate (suc n) (suc i) a = get_or-replicate n i a

pub set-set {ℓ} : {A : Type ℓ} (xs : List A) (i : ℕ) (u v : A) → set (set xs i u) i v ≡ set xs i v
set-set [] i u v = refl
set-set (x ∷ xs) zero u v = refl
set-set (x ∷ xs) (suc i) u v = ap (λ t. x ∷ t) (set-set xs i u v)

pub get_elem?-set_self {ℓ} :
    {A : Type ℓ} (xs : List A) (i : ℕ) (x v : A)
    → get_elem? xs i ≡ some x
    → get_elem? (set xs i v) i ≡ some v
get_elem?-set_self [] i x v e = absurd (ground arith)
get_elem?-set_self (y ∷ ys) zero x v e = refl
get_elem?-set_self (y ∷ ys) (suc i) x v e = get_elem?-set_self ys i x v e

pub All-set {ℓ} :
    {A : Type ℓ} (P : A → Type 0) (xs : List A) (i : ℕ) (v : A)
    → All P xs
    → P v
    → All P (set xs i v)
All-set P [] i v a p = tt
All-set P (x ∷ xs) zero v a p = (p, a.1)
All-set P (x ∷ xs) (suc i) v a p = (a.0, All-set P xs i v a.1 p)

pub All-remove_at {ℓ} :
    {A : Type ℓ} (P : A → Type 0) (xs : List A) (i : ℕ) → All P xs → All P (remove_at xs i)
All-remove_at P [] i a = tt
All-remove_at P (x ∷ xs) zero a = a.1
All-remove_at P (x ∷ xs) (suc i) a = (a.0, All-remove_at P xs i a.1)

-- A statement about what is made of an optional value, case by case.
pub option_cases {ℓ κ} :
    {A : Type ℓ} {B : Type κ} (P : B → Type 0) (r : Option A) (x : B) (f : A → B)
    → (r ≡ none → P x)
    → ((a : A) → r ≡ some a → P (f a))
    → P (elim r [ none ↦ x | some a ↦ f a ])
option_cases P none x f h k = h refl
option_cases P (some a) x f h k = k a refl

-- To split on an optional value, and keep the equation.
pub Option-cases {ℓ} : {A : Type ℓ} (r : Option A) → (r ≡ none) ⊎ ((a : A) × (r ≡ some a))
Option-cases none = inl refl
Option-cases (some a) = inr (a, refl)

-- `BIT(i)` of a word, which is the list of its bits, the lowest first.
abbrev pub bit : List Bool → ℕ → Bool
bit bits i = get_or bits i false

-- The number that a word is.
unfoldable pub word : List Bool → ℕ
word [] = 0
word (b ∷ bs) = (if b then 1 else 0) + 2 * word bs

abbrev pub or_bits : List Bool → List Bool → List Bool
or_bits [] ys = []
or_bits (x ∷ xs) [] = x ∷ xs
or_bits (x ∷ xs) (y ∷ ys) = (x || y) ∷ or_bits xs ys
