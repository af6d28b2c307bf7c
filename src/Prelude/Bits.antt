-- ===== src/Prelude/Bits.antt =====
-- Facts about the bit operations at variables, from the digit recursion that they stand for.
use Prim.Native.Nat.{
  digits, bitwise, bit_xor-bitwise, bit_and-bitwise, bit_or-bitwise, differ, min, max, bit_or,
}
use Prim.Native.Nat.{ℕ, zero, suc, ◌+◌, ◌*◌, ◌/◌, ◌%◌, ◌^◌, ◌≤◌, ◌<◌, bit_and, bit_xor}
use mathlib.Core.Path.{◌≡◌, refl, sym, ap, ap₂, ◌∙◌}
use mathlib.Core.Bool.{true}
use native.Mathlib.Nat.{pow-suc}
use native.Mathlib.Omega.{arith}
use br_external.Prelude.Tests.{◌==◌, ==_iff, all_below, all_below_sound}

module _ (on_zero : ℕ → ℕ) (op : ℕ → ℕ → ℕ) where
  digits_at-zero : (fuel b : ℕ) → digits on_zero op fuel 0 b ≡ on_zero b
  digits_at-zero zero b = refl
  digits_at-zero (suc fuel) b = refl

  -- Any two fuels that cover the first number give the same digits.
  digits_same :
      (fuel gas a b : ℕ)
      → a ≤ fuel
      → a ≤ gas
      → digits on_zero op fuel a b ≡ digits on_zero op gas a b
  digits_same fuel gas zero b h k = digits_at-zero fuel b ∙ sym (digits_at-zero gas b)
  digits_same zero gas (suc a) b h k = absurd (omega arith)
  digits_same (suc fuel) zero (suc a) b h k = absurd (omega arith)
  digits_same (suc fuel) (suc gas) (suc a) b h k =
      ap (λ rest. rest * 2 + op (suc a % 2) (b % 2))
        (digits_same fuel gas (suc a / 2) (b / 2) (omega arith) (omega arith))

  -- The lowest digit of the result, where the first number is not 0.
  lowest_digit :
      (a b : ℕ)
      → bitwise on_zero op (suc a) b
        ≡ bitwise on_zero op (suc a / 2) (b / 2) * 2 + op (suc a % 2) (b % 2)
  lowest_digit a b =
      ap (λ rest. rest * 2 + op (suc a % 2) (b % 2))
        (digits_same a (suc a / 2) (suc a / 2) (b / 2) (omega arith) (omega arith))

pub zero-bit_xor : (b : ℕ) → bit_xor 0 b ≡ b
zero-bit_xor b = bit_xor-bitwise 0 b

differ-mod : (x y : ℕ) → x < 2 → y < 2 → differ x y ≡ (x + y) % 2
differ-mod zero y p q = omega arith
differ-mod (suc zero) zero p q = refl
differ-mod (suc zero) (suc zero) p q = refl
differ-mod (suc zero) (suc (suc y)) p q = absurd (omega arith)
differ-mod (suc (suc x)) y p q = absurd (omega arith)

-- The lowest digit, and the rest.
pub bit_xor_lowest : (a b : ℕ) → bit_xor a b ≡ bit_xor (a / 2) (b / 2) * 2 + (a % 2 + b % 2) % 2
bit_xor_lowest zero b = omega (arith, zero-bit_xor b, zero-bit_xor (b / 2))
bit_xor_lowest (suc a) b = omega (
  arith,
  bit_xor-bitwise (suc a) b,
  bit_xor-bitwise (suc a / 2) (b / 2),
  lowest_digit (λ y. y) differ a b,
  differ-mod (suc a % 2) (b % 2) (omega arith) (omega arith),
)

bit_and_lowest : (x y : ℕ) → bit_and x y ≡ min (x % 2) (y % 2) + 2 * bit_and (x / 2) (y / 2)
bit_and_lowest (suc x) y =
    let upper = bit_and-bitwise (suc x / 2) (y / 2) in
    let whole = bit_and-bitwise (suc x) y in
    omega (arith, whole, lowest_digit (λ (_ : ℕ). 0) min x y, upper)
bit_and_lowest zero y = omega (arith, bit_and-bitwise 0 (y / 2), bit_and-bitwise 0 y)

-- Exclusive or makes no new digit.
pub bit_xor-lt : (k a b : ℕ) → a < 2 ^ k → b < 2 ^ k → bit_xor a b < 2 ^ k
bit_xor-lt zero a b p q = ground (arith, zero-bit_xor b)
bit_xor-lt (suc k) a b p q = omega (
  arith,
  pow-suc 2 k,
  bit_xor_lowest a b,
  bit_xor-lt k (a / 2) (b / 2) (omega (arith, pow-suc 2 k)) (omega (arith, pow-suc 2 k)),
)

bit_xor_comm_fuel : (k a b : ℕ) → a ≤ k → b ≤ k → bit_xor a b ≡ bit_xor b a
bit_xor_comm_fuel zero zero zero p q = refl
bit_xor_comm_fuel zero zero (suc b) p q = absurd (omega arith)
bit_xor_comm_fuel zero (suc a) b p q = absurd (omega arith)
bit_xor_comm_fuel (suc k) a b p q = omega (
  arith,
  bit_xor_lowest a b,
  bit_xor_lowest b a,
  bit_xor_comm_fuel k (a / 2) (b / 2) (omega arith) (omega arith),
)

pub bit_xor_comm : (a b : ℕ) → bit_xor a b ≡ bit_xor b a
bit_xor_comm a b = bit_xor_comm_fuel (a + b) a b (omega arith) (omega arith)

bit_xor_assoc_fuel :
    (k a b c : ℕ) → a ≤ k → b ≤ k → c ≤ k → bit_xor (bit_xor a b) c ≡ bit_xor a (bit_xor b c)
bit_xor_assoc_fuel zero zero b c p q r = rw (zero-bit_xor b, zero-bit_xor (bit_xor b c))
bit_xor_assoc_fuel zero (suc a) b c p q r = absurd (omega arith)
bit_xor_assoc_fuel (suc k) a b c p q r =
    let half : bit_xor a b / 2 ≡ bit_xor (a / 2) (b / 2) = omega (arith, bit_xor_lowest a b) in
    let half' : bit_xor b c / 2 ≡ bit_xor (b / 2) (c / 2) = omega (arith, bit_xor_lowest b c) in
    let left = rw half at (bit_xor_lowest (bit_xor a b) c) in
    let right = rw half' at (bit_xor_lowest a (bit_xor b c)) in
    omega (
      arith,
      left,
      right,
      bit_xor_lowest a b,
      bit_xor_lowest b c,
      bit_xor_assoc_fuel k (a / 2) (b / 2) (c / 2) (omega arith) (omega arith) (omega arith),
    )

pub bit_xor_assoc : (a b c : ℕ) → bit_xor (bit_xor a b) c ≡ bit_xor a (bit_xor b c)
bit_xor_assoc a b c = bit_xor_assoc_fuel (a + b + c) a b c (omega arith) (omega arith) (omega arith)

bit_and_odd : (m a : ℕ) → bit_and a (2 * m + 1) ≡ bit_and (a / 2) m * 2 + a % 2
bit_and_odd m a =
    let half : (2 * m + 1) / 2 ≡ m = omega arith in
    omega (arith, rw half at (bit_and_lowest a (2 * m + 1)))

masked_out : (size a : ℕ) → a ≤ size → bit_and a 0 ≡ 0
masked_out size zero h = refl
masked_out zero (suc a) h = absurd (omega arith)
masked_out (suc size) (suc a) h =
    let rest = masked_out size (suc a / 2) (omega arith) in
    omega (arith, rest, bit_and_lowest (suc a) 0)

bit_and_1 : (a : ℕ) → bit_and a 1 ≡ a % 2
bit_and_1 a = omega (arith, bit_and_odd 0 a, masked_out (a / 2) (a / 2) (omega arith))

bit_and_3 : (a : ℕ) → bit_and a 3 ≡ a % 4
bit_and_3 a = omega (arith, bit_and_odd 1 a, bit_and_1 (a / 2))

-- Masks of low bits are remainders.
pub bit_and_7 : (a : ℕ) → bit_and a 7 ≡ a % 8
bit_and_7 a = omega (arith, bit_and_odd 3 a, bit_and_3 (a / 2))

pub bit_and_15 : (a : ℕ) → bit_and a 15 ≡ a % 16
bit_and_15 a = omega (arith, bit_and_odd 7 a, bit_and_7 (a / 2))

bit_and_63 : (a : ℕ) → bit_and a 63 ≡ a % 64
bit_and_63 a = omega (arith, bit_and_odd 31 a, bit_and_odd 15 (a / 2), bit_and_15 (a / 2 / 2))

pub bit_and_255 : (a : ℕ) → bit_and a 255 ≡ a % 256
bit_and_255 a = omega (arith, bit_and_odd 127 a, bit_and_odd 63 (a / 2), bit_and_63 (a / 2 / 2))

-- The single bits of a byte that the header tests.
pub bit_and_128 : (x : ℕ) → x < 256 → bit_and x 128 ≡ x / 128 * 128
bit_and_128 x h = (==_iff _ x').0 (all_below_sound 256 (λ x. bit_and x 128 == x / 128 * 128) x t h)
  where
    x' : ℕ
    x' = x / 128 * 128

    t : all_below 256 (λ x. bit_and x 128 == x / 128 * 128) ≡ true
    t = unfold all_below in refl

pub bit_and_64 : (x : ℕ) → x < 256 → bit_and x 64 ≡ x / 64 % 2 * 64
bit_and_64 x h = (==_iff _ x').0 (all_below_sound 256 (λ x. bit_and x 64 == x / 64 % 2 * 64) x t h)
  where
    x' : ℕ
    x' = x / 64 % 2 * 64

    t : all_below 256 (λ x. bit_and x 64 == x / 64 % 2 * 64) ≡ true
    t = unfold all_below in refl

bit_or_lowest : (a b : ℕ) → bit_or a b ≡ bit_or (a / 2) (b / 2) * 2 + max (a % 2) (b % 2)
bit_or_lowest zero b = omega (arith, bit_or-bitwise 0 b, bit_or-bitwise 0 (b / 2))
bit_or_lowest (suc a) b = omega (
  arith,
  bit_or-bitwise (suc a) b,
  bit_or-bitwise (suc a / 2) (b / 2),
  lowest_digit (λ y. y) max a b,
)

bit_or-zero_fuel : (n a : ℕ) → a ≤ n → bit_or a 0 ≡ a
bit_or-zero_fuel n zero h = refl
bit_or-zero_fuel zero (suc a) h = absurd (omega arith)
bit_or-zero_fuel (suc n) (suc a) h =
    omega (arith, bit_or_lowest (suc a) 0, bit_or-zero_fuel n (suc a / 2) (omega arith))

double-pow : (q k : ℕ) → q * 2 ^ suc k ≡ 2 * (q * 2 ^ k)
double-pow q k = omega (arith, ap (λ (t : ℕ). q * t) (pow-suc 2 k))

-- Fields that do not overlap are joined by a sum.
pub bit_or_fields : (k q r : ℕ) → r < 2 ^ k → bit_or (q * 2 ^ k) r ≡ q * 2 ^ k + r
bit_or_fields zero q r h = ground (arith, bit_or-zero_fuel q q (omega arith))
bit_or_fields (suc k) q r h = ground (
  arith,
  bit_or_lowest (q * 2 ^ suc k) r,
  double-pow q k,
  pow-suc 2 k,
  bit_or_fields k q (r / 2) (omega (arith, pow-suc 2 k)),
)

pub bit_xor-zero : (a : ℕ) → bit_xor a 0 ≡ a
bit_xor-zero a = bit_xor_comm a 0 ∙ zero-bit_xor a

bit_xor_half : (a b : ℕ) → bit_xor a b / 2 ≡ bit_xor (a / 2) (b / 2)
bit_xor_half a b = omega (arith, bit_xor_lowest a b)

-- A shift right goes under the exclusive or.
pub bit_xor-shift4 : (a b : ℕ) → bit_xor a b / 16 ≡ bit_xor (a / 16) (b / 16)
bit_xor-shift4 a b =
    let step = λ (x y : ℕ). bit_xor_half x y in
    let s1 = step a b in
    let s2 = step (a / 2) (b / 2) in
    let s3 = step (a / 2 / 2) (b / 2 / 2) in
    let s4 = step (a / 2 / 2 / 2) (b / 2 / 2 / 2) in
    let ea : a / 2 / 2 / 2 / 2 ≡ a / 16 = omega arith in
    let eb : b / 2 / 2 / 2 / 2 ≡ b / 16 = omega arith in
    let last : bit_xor (a / 2 / 2 / 2 / 2) (b / 2 / 2 / 2 / 2) ≡ bit_xor (a / 16) (b / 16) =
      ap₂ bit_xor ea eb in
    omega (arith, s1, s2, s3, s4, last)

pub bit_xor_double : (a b : ℕ) → bit_xor (2 * a) b ≡ bit_xor a (b / 2) * 2 + b % 2
bit_xor_double a b =
    let e : 2 * a / 2 ≡ a = omega arith in omega (arith, rw e at (bit_xor_lowest (2 * a) b))

pub bit_xor_fields4 : (a b : ℕ) → b < 16 → bit_xor (16 * a) b ≡ 16 * a + b
bit_xor_fields4 a b h =
    let s1 = bit_xor_double (2 * (2 * (2 * a))) b in
    let s2 = bit_xor_double (2 * (2 * a)) (b / 2) in
    let s3 = bit_xor_double (2 * a) (b / 2 / 2) in
    let s4 = bit_xor_double a (b / 2 / 2 / 2) in
    let e : b / 2 / 2 / 2 / 2 ≡ 0 = omega arith in
    let last : bit_xor a (b / 2 / 2 / 2 / 2) ≡ a = rw e (bit_xor-zero a) in
    let whole : bit_xor (2 * (2 * (2 * (2 * a)))) b ≡ 16 * a + b =
      omega (arith, s1, s2, s3, s4, last) in
    let f : 16 * a ≡ 2 * (2 * (2 * (2 * a))) = omega arith in rw f (whole ∙ omega arith)
