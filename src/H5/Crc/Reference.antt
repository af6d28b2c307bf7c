-- ===== src/H5/Crc/Reference.antt =====
-- The table-driven CRC against the polynomial that it stands for.
use br_external.Prelude.{
  ℕ, zero, suc, ◌*◌, ◌/◌, ◌%◌, ◌<◌, ◌≡◌, refl, sym, ap, ◌∙◌, bit_xor, arith, true, if◌then◌else◌,
  ◌==◌, ==_iff, all_below, all_below_sound, get_or, Bool-cases, inl, inr,
}
use br_external.Prelude.Bits.{
  bit_xor_comm, bit_xor_assoc, bit_xor-shift4, bit_xor_double, bit_xor_fields4, bit_xor-zero,
  bit_and_15,
}
use br_external.H5.Crc.{crc_table, crc_nibble, h5_crc_update}

-- One bit of the division by 0x1021, least significant bit first: 0x8408 is 0x1021 reversed.
crc_bit : ℕ → ℕ
crc_bit reg = if reg % 2 == 1 then bit_xor (reg / 2) 0x8408 else reg / 2

crc_bits : ℕ → ℕ → ℕ
crc_bits zero reg = reg
crc_bits (suc n) reg = crc_bits n (crc_bit reg)

-- A byte: it is added to the register, and eight bits are divided out.
pub crc_byte : ℕ → ℕ → ℕ
unfolding crc_bits
crc_byte reg d = crc_bits 8 (bit_xor reg d)

crc_bit-double : (x y : ℕ) → crc_bit (bit_xor (2 * x) y) ≡ bit_xor x (crc_bit y)
unfolding crc_bit
crc_bit-double x y =
    let odd : bit_xor (2 * x) y % 2 ≡ y % 2 = omega (arith, bit_xor_double x y) in
    let half : bit_xor (2 * x) y / 2 ≡ bit_xor x (y / 2) = omega (arith, bit_xor_double x y) in
    elim (Bool-cases (y % 2 == 1)) [
      | inl e ↦ rw (odd, half, e) (bit_xor_assoc x (y / 2) 0x8408)
      | inr e ↦ rw (odd, half, e)
    ]

crc_bits-shift : (x y : ℕ) → crc_bits 4 (bit_xor (16 * x) y) ≡ bit_xor x (crc_bits 4 y)
unfolding crc_bits
crc_bits-shift x y =
    let e : 16 * x ≡ 2 * (2 * (2 * (2 * x))) = omega arith in
    rw (e, crc_bit-double, crc_bit-double, crc_bit-double, crc_bit-double)

table_lem : (n : ℕ) → n < 16 → crc_bits 4 n ≡ get_or crc_table n 0
table_lem n h =
    (==_iff (crc_bits 4 n) (get_or crc_table n 0)).0
      (all_below_sound 16 (λ i. crc_bits 4 i == get_or crc_table i 0) n rows h)
  where
    rows : all_below 16 (λ i. crc_bits 4 i == get_or crc_table i 0) ≡ true
    rows = unfold all_below crc_bits crc_bit in refl

crc_bits-nibble : (r : ℕ) → crc_bits 4 r ≡ bit_xor (r / 16) (get_or crc_table (r % 16) 0)
crc_bits-nibble r =
    ap (crc_bits 4) split
    ∙ crc_bits-shift (r / 16) (r % 16)
    ∙ ap (bit_xor (r / 16)) (table_lem (r % 16) (omega arith))
  where
    split : r ≡ bit_xor (16 * (r / 16)) (r % 16)
    split = omega (arith, bit_xor_fields4 (r / 16) (r % 16) (omega arith))

xor_swap : (a b c : ℕ) → bit_xor (bit_xor a b) c ≡ bit_xor (bit_xor a c) b
xor_swap a b c = bit_xor_assoc a b c ∙ ap (bit_xor a) (bit_xor_comm b c) ∙ sym (bit_xor_assoc a c b)

crc_nibble_lem : (reg d : ℕ) → crc_bits 4 (bit_xor reg d) ≡ bit_xor (crc_nibble reg d) (d / 16)
unfolding crc_nibble
crc_nibble_lem reg d =
    let entry = get_or crc_table (bit_xor reg d % 16) 0 in
    rw (crc_bits-nibble (bit_xor reg d), bit_xor-shift4 reg d, bit_and_15 (bit_xor reg d))
      (xor_swap (reg / 16) (d / 16) entry)

-- For every register value and byte, the update by two look-ups in the table of sixteen entries is
-- the division of the byte by the polynomial 0x1021, bit by bit and least significant bit first.
pub h5_crc_update-eq-crc_byte : (reg d : ℕ) → d < 256 → h5_crc_update reg d ≡ crc_byte reg d
unfolding h5_crc_update crc_byte
h5_crc_update-eq-crc_byte reg d h =
    let done : d / 16 / 16 ≡ 0 = omega arith in
    let second : crc_bits 4 (bit_xor (crc_nibble reg d) (d / 16))
        ≡ crc_nibble (crc_nibble reg d) (d / 16) =
      crc_nibble_lem (crc_nibble reg d) (d / 16)
      ∙ rw done (bit_xor-zero (crc_nibble (crc_nibble reg d) (d / 16))) in
    sym (ap (crc_bits 4) (crc_nibble_lem reg d) ∙ second)
