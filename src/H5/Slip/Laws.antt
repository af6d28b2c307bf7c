-- ===== src/H5/Slip/Laws.antt =====
-- The SLIP layer: what is escaped, and that decoding undoes encoding.
use br_external.Prelude.{
  ℕ, ◌+◌, ◌-◌, ◌≤◌, ◌<◌, ◌^◌, ◌≡◌, ◌≢◌, ◌⊎◌, refl, ap, ◌∙◌, arith, bit_and, not, ◌&&◌,
  if◌then◌else◌, ◌==◌, inl, inr, sym, List, [], ◌∷◌, ◌++◌, get_or, All, ok,
}
use br_external.H5.Crc.{h5_crc_update}
use br_external.H5.Skb.{Skb, live, u32, contents}
use br_external.H5.Skb.Laws.{IsBlock, appended, append-ok, append-Appended, read_lem}
use br_external.H5.Slip.{
  slip_bytes, is_w4_crc, unslip_put, unslip_escaped, unslip_in, h5_unslip_one_byte,
}
use br_external.H5.State.{H5, RxState, noesc, esc}

-- The register after a byte that is the next behind `held`.
abbrev pub counted : RxState → List ℕ → ℕ → ℕ → ℕ
counted state held crc byte =
    if not (bit_and (get_or (held ++ (byte ∷ [])) 0 0) 0x40 == 0) && not (is_w4_crc state)
    then h5_crc_update crc byte
    else crc

-- The state after one more byte of a packet.
abbrev pub received : H5 → Skb → ℕ → H5
received h5 skb byte = record h5 {
  rx_skb = live (appended skb (byte ∷ []));
  message_crc = counted h5.rx_state (contents skb) h5.message_crc byte;
  rx_count = h5.rx_count - 1;
}

module _ (h5 : H5) (skb : Skb) (byte : ℕ) (held : h5.rx_skb ≡ live skb) (v : IsBlock skb)
    (room : skb.off + skb.data_len + 1 ≤ skb.max_len) (more : 0 < h5.rx_count)
    (count : h5.rx_count < 2 ^ 32) where
  pub unslip_put-received : unslip_put h5 byte ≡ ok (received h5 skb byte)
  unfolding unslip_put
  unslip_put-received =
      let a = append-Appended skb (byte ∷ []) v room in
      rw
        (
          held,
          append-ok skb (byte ∷ []) v room,
          read_lem (appended skb (byte ∷ [])) 0 a.valid (omega arith),
          a.holds,
        )
        (rw one_less)
    where
      one_less : u32 (h5.rx_count + 2 ^ 32 - 1) ≡ h5.rx_count - 1
      one_less = omega arith

abbrev pub EscapedAs : ℕ → ℕ → ℕ → Type 0
EscapedAs c d b = (c ≡ d) × (slip_bytes c ≡ 0xdb ∷ b ∷ [])

abbrev pub SentAlone : ℕ → Type 0
SentAlone c = (slip_bytes c ≡ c ∷ []) × (c ≢ 0xc0) × (c ≢ 0xdb)

pub slip_form :
    (c : ℕ)
    → SentAlone c
      ⊎ EscapedAs c 0xc0 0xdc
      ⊎ EscapedAs c 0xdb 0xdd
      ⊎ EscapedAs c 0x11 0xde
      ⊎ EscapedAs c 0x13 0xdf
unfolding slip_bytes
slip_form c = ground arith

-- Back to the plain state after an escape pair.
module _ (h5 : H5) (skb : Skb) (byte : ℕ) (held : h5.rx_skb ≡ live skb) (v : IsBlock skb)
    (room : skb.off + skb.data_len + 1 ≤ skb.max_len) (more : 0 < h5.rx_count)
    (count : h5.rx_count < 2 ^ 32) (plain : h5.rx_esc_state ≡ noesc) where
  abbrev pub escaping : H5
  escaping = record h5 { rx_esc_state = esc }

  unslip_escaped-received : unslip_escaped escaping byte ≡ ok (received h5 skb byte)
  unfolding unslip_escaped
  unslip_escaped-received =
      rw (unslip_put-received escaping skb byte held v room more count) (rw (sym plain))

  pub enter_escape : h5_unslip_one_byte h5 0xdb ≡ ok escaping
  unfolding h5_unslip_one_byte
  enter_escape = rw plain

  -- The pair for `byte`, whose second byte is `b`.
  unslip_pair :
      (b c : ℕ)
      → byte ≡ c
      → h5_unslip_one_byte escaping b ≡ unslip_escaped escaping c
      → h5_unslip_one_byte escaping b ≡ ok (received h5 skb byte)
  unslip_pair b c e meant = meant ∙ rw (← e) unslip_escaped-received

  unslip_plainly : byte ≢ 0xdb → h5_unslip_one_byte h5 byte ≡ unslip_put h5 byte
  unfolding h5_unslip_one_byte
  unslip_plainly ne = ap (λ e. unslip_in e h5 byte) plain ∙ ground arith

  -- A byte goes out as itself, and is decoded at once.
  abbrev pub Alone : Type 0
  Alone =
      (slip_bytes byte ≡ byte ∷ [])
      × (byte ≢ 0xc0)
      × (h5_unslip_one_byte h5 byte ≡ ok (received h5 skb byte))

  -- Or it goes out as a pair, whose first byte only sets the escape state.
  abbrev pub Pair : Type 0
  Pair =
      (b : ℕ) × (slip_bytes byte ≡ 0xdb ∷ b ∷ [])
      × (b ≢ 0xc0)
      × (h5_unslip_one_byte escaping b ≡ ok (received h5 skb byte))

  -- In a packet with a byte to come and room in its buffer, a byte goes out either as itself or as a
  -- pair that starts with 0xdb, never with a delimiter in it; decoded by `h5_unslip_one_byte`, what
  -- goes out stores the byte, counts it into the CRC where the header asks for that, and leaves one
  -- byte less to come and the escape state as it was.
  pub unslip-slip_bytes : Alone ⊎ Pair
  unslip-slip_bytes = elim (slip_form byte) [
    | inl p ↦
        inl (p.0, p.1, unslip_plainly p.2 ∙ unslip_put-received h5 skb byte held v room more count)
    | inr (inl p) ↦
        inr (0xdc, p.1, omega arith, unslip_pair 0xdc 0xc0 p.0 (unfold h5_unslip_one_byte in refl))
    | inr (inr (inl p)) ↦
        inr (0xdd, p.1, omega arith, unslip_pair 0xdd 0xdb p.0 (unfold h5_unslip_one_byte in refl))
    | inr (inr (inr (inl p))) ↦
        inr (0xde, p.1, omega arith, unslip_pair 0xde 0x11 p.0 (unfold h5_unslip_one_byte in refl))
    | inr (inr (inr (inr p))) ↦
        inr (0xdf, p.1, omega arith, unslip_pair 0xdf 0x13 p.0 (unfold h5_unslip_one_byte in refl))
  ]

-- What goes out never looks like a delimiter or a flow-control byte.
abbrev pub IsPlain : ℕ → Type 0
IsPlain b = (b ≢ 0xc0) × (b ≢ 0x11) × (b ≢ 0x13)

pub slip_bytes-IsPlain : (c : ℕ) → All IsPlain (slip_bytes c)
unfolding slip_bytes
slip_bytes-IsPlain c = ground arith
