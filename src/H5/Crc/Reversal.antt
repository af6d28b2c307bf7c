-- ===== src/H5/Crc/Reversal.antt =====
-- `bit_rev8` and `bit_rev16` reverse the bits of their argument, and a CRC register stays in 16 bits.
use br_external.Prelude.{
  ℕ, zero, suc, ◌+◌, ◌*◌, ◌/◌, ◌%◌, ◌^◌, ◌<◌, ◌≡◌, refl, ◌∙◌, bit_xor, arith, true, ◌==◌, ltb,
  ltb→lt, ==_iff, all_below, all_below_sound, get_or,
}
use br_external.Prelude.Bits.{bit_xor-lt, bit_or_fields, bit_and_255, bit_and_15}
use br_external.H5.Crc.{crc_table, crc_nibble, h5_crc_update, bit_rev8, bit_rev16}

-- The `n` lowest bits of a number in the opposite order.
pub reversed : ℕ → ℕ → ℕ
reversed zero x = 0
reversed (suc n) x = x % 2 * 2 ^ n + reversed n (x / 2)

pub bit_rev8-eq-reversed : (x : ℕ) → x < 256 → bit_rev8 x ≡ reversed 8 x
bit_rev8-eq-reversed x h =
    (==_iff (bit_rev8 x) (reversed 8 x)).0
      (all_below_sound 256 (λ i. bit_rev8 i == reversed 8 i) x rows h)
  where
    rows : all_below 256 (λ i. bit_rev8 i == reversed 8 i) ≡ true
    rows = unfold all_below bit_rev8 reversed in refl

bit_rev8-lt : (x : ℕ) → x < 256 → bit_rev8 x < 256
bit_rev8-lt x h = ltb→lt (bit_rev8 x) 256 (all_below_sound 256 (λ i. ltb (bit_rev8 i) 256) x rows h)
  where
    rows : all_below 256 (λ i. ltb (bit_rev8 i) 256) ≡ true
    rows = unfold all_below bit_rev8 in refl

bit_rev8_twice : (x : ℕ) → x < 256 → bit_rev8 (bit_rev8 x) ≡ x
bit_rev8_twice x h =
    (==_iff (bit_rev8 (bit_rev8 x)) x).0
      (all_below_sound 256 (λ i. bit_rev8 (bit_rev8 i) == i) x rows h)
  where
    rows : all_below 256 (λ i. bit_rev8 (bit_rev8 i) == i) ≡ true
    rows = unfold all_below bit_rev8 in refl

-- The two bytes of `bit_rev16`, swapped and each reversed.
pub bit_rev16_parts :
    (x : ℕ) → x < 2 ^ 16 → bit_rev16 x ≡ bit_rev8 (x % 256) * 256 + bit_rev8 (x / 256)
unfolding bit_rev16
bit_rev16_parts x h = rw (bit_and_255 x) (
    bit_or_fields 8 (bit_rev8 (x % 256)) (bit_rev8 (x / 256)) (bit_rev8-lt (x / 256) (omega arith)))

pub bit_rev16-lt : (x : ℕ) → x < 2 ^ 16 → bit_rev16 x < 2 ^ 16
bit_rev16-lt x h = omega (
  arith,
  bit_rev16_parts x h,
  bit_rev8-lt (x % 256) (omega arith),
  bit_rev8-lt (x / 256) (omega arith),
)

reversed-byte :
    (x : ℕ) → x < 2 ^ 16 → reversed 16 x ≡ reversed 8 (x % 256) * 256 + reversed 8 (x / 256)
unfolding reversed
reversed-byte x h = omega arith

-- On 16-bit values `bit_rev16` is the reversal of all sixteen bits, and undoes itself.
pub bit_rev16-eq-reversed :
    (x : ℕ) → x < 2 ^ 16 → (bit_rev16 x ≡ reversed 16 x) × (bit_rev16 (bit_rev16 x) ≡ x)
bit_rev16-eq-reversed x h = (forwards, twice)
  where
    low : x % 256 < 256
    low = omega arith

    high : x / 256 < 256
    high = omega arith

    forwards : bit_rev16 x ≡ reversed 16 x
    forwards = omega (
      arith,
      bit_rev16_parts x h,
      reversed-byte x h,
      bit_rev8-eq-reversed (x % 256) low,
      bit_rev8-eq-reversed (x / 256) high,
    )

    low_of : bit_rev16 x % 256 ≡ bit_rev8 (x / 256)
    low_of = omega (arith, bit_rev16_parts x h, bit_rev8-lt (x / 256) high)

    high_of : bit_rev16 x / 256 ≡ bit_rev8 (x % 256)
    high_of = omega (arith, bit_rev16_parts x h, bit_rev8-lt (x / 256) high)

    twice : bit_rev16 (bit_rev16 x) ≡ x
    twice =
        bit_rev16_parts (bit_rev16 x) (bit_rev16-lt x h)
        ∙ rw (low_of, high_of, bit_rev8_twice (x / 256) high, bit_rev8_twice (x % 256) low)
            (omega arith)

-- The register stays in sixteen bits.
table-lt : (i : ℕ) → i < 16 → get_or crc_table i 0 < 2 ^ 16
table-lt i h =
    ltb→lt (get_or crc_table i 0) (2 ^ 16)
      (all_below_sound 16 (λ i. ltb (get_or crc_table i 0) (2 ^ 16)) i rows h)
  where
    rows : all_below 16 (λ i. ltb (get_or crc_table i 0) (2 ^ 16)) ≡ true
    rows = unfold all_below in refl

crc_nibble-lt : (reg d : ℕ) → reg < 2 ^ 16 → crc_nibble reg d < 2 ^ 16
unfolding crc_nibble
crc_nibble-lt reg d h = rw (bit_and_15 (bit_xor reg d)) (
    bit_xor-lt 16 (reg / 16) (get_or crc_table (bit_xor reg d % 16) 0) (omega arith)
      (table-lt (bit_xor reg d % 16) (omega arith)))

pub h5_crc_update-lt : (reg d : ℕ) → reg < 2 ^ 16 → h5_crc_update reg d < 2 ^ 16
unfolding h5_crc_update
h5_crc_update-lt reg d h = crc_nibble-lt (crc_nibble reg d) (d / 16) (crc_nibble-lt reg d h)
