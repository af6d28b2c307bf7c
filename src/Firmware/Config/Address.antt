-- ===== src/Firmware/Config/Address.antt =====
-- Where the configuration holds the device's address.
use br_external.Prelude.{
  ℕ, ◌<◌, ◌≡◌, refl, Bool, true, false, not, ◌&&◌, ◌||◌, if◌then◌else◌, ==_iff, ◌==◌, all_below,
  all_below_sound, true-false, List, [], ◌∷◌, arith,
}
use br_external.Firmware.Config.{is_mac, get_mac_offset}

abbrev alike : Bool → Bool → Bool
alike a b = if a then b else not b

alike_eq : (a b : Bool) → alike a b ≡ true → a ≡ b
alike_eq true true h = refl
alike_eq true false h = true-false false h refl
alike_eq false true h = true-false false h refl
alike_eq false false h = refl

-- A chip type and the offset of the address in the chip's configuration, written out by hand.
abbrev pub mac_table : List (ℕ × ℕ)
mac_table =
    (0x70, 0x44)
    ∷ (0x71, 0x44)
    ∷ (0x72, 0x44)
    ∷ (0x73, 0x30)
    ∷ (0x74, 0x30)
    ∷ (0x75, 0x30)
    ∷ (0x76, 0x30)
    ∷ (0x00, 0x30)
    ∷ (0x77, 0x30)
    ∷ (0x7a, 0x30)
    ∷ (0x1f, 0x3c)
    ∷ (0x2f, 0x3c)
    ∷ (0x3f, 0x3c)
    ∷ (0x5f, 0x3c)
    ∷ []

abbrev pub listed : ℕ → List (ℕ × ℕ) → Bool
listed c [] = false
listed c ((d, off) ∷ rest) = c == d || listed c rest

abbrev pub offset_of : ℕ → List (ℕ × ℕ) → ℕ
offset_of c [] = 0x003c
offset_of c ((d, off) ∷ rest) = if c == d then off else offset_of c rest

-- What the two functions say of a chip type is what the table says.
abbrev agrees : ℕ → Bool
agrees c =
    let off = get_mac_offset c in
    off == offset_of c mac_table
    && (alike (is_mac c off) (listed c mac_table)
        && alike (is_mac c 0x44) (offset_of c mac_table == 0x44 || (c == 3 || (c == 4 || c == 5))))

rows : all_below 256 agrees ≡ true
rows = unfold all_below is_mac get_mac_offset in refl

both : (a b : Bool) → (a && b) ≡ true → (a ≡ true) × (b ≡ true)
both a b h = ground arith

-- For every value of the chip type's byte, against a table of the chips with the offset of the
-- address in each one's configuration: `get_mac_offset` gives the table's offset, and 0x003c for a
-- chip that is not in the table; that offset counts as an address offset for `is_mac` just when the
-- chip is in the table; and 0x0044 counts just for the chips that have it in the table and for the
-- three variants of the 8723CS (types 3, 4 and 5), which are not in the table and so are given
-- 0x003c.
pub is_mac-get_mac_offset :
    (chip_type : ℕ)
    → chip_type < 256
    → (get_mac_offset chip_type ≡ offset_of chip_type mac_table)
      × (is_mac chip_type (get_mac_offset chip_type) ≡ listed chip_type mac_table)
      × (is_mac chip_type 0x0044
          ≡ offset_of chip_type mac_table == 0x0044
            || (chip_type == 3 || (chip_type == 4 || chip_type == 5)))
is_mac-get_mac_offset chip_type h =
    let p = both _ _ (all_below_sound 256 agrees chip_type rows h) in
    let q = both _ _ p.1 in ((==_iff _ _).0 p.0, alike_eq _ _ q.0, alike_eq _ _ q.1)
