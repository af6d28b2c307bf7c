-- ===== src/H5/Slip.antt =====
-- The SLIP layer of rtk_hciattach/hciattach_rtk.c: `h5_slip_msgdelim`, `h5_slip_one_byte` and
-- `h5_unslip_one_byte`.
pub mod Laws
pub mod Valid
use br_external.Prelude.{
  ℕ, ◌+◌, ◌-◌, ◌^◌, bit_and, Bool, true, false, not, ◌&&◌, if◌then◌else◌, ◌==◌, List, [], ◌∷◌,
  Outcome, ok, ◌>>=◌,
}
use br_external.H5.Crc.{h5_crc_update}
use br_external.H5.Skb.{Skb, null, live, deref, u32, append, read, skb_free}
use br_external.H5.State.{H5, RxState, RxEscState, w4_crc, w4_pkt_delimiter, noesc, esc}

-- What goes out for one byte.
unfoldable pub slip_bytes : ℕ → List ℕ
slip_bytes c =
    if c == 0xc0
    then 0xdb ∷ 0xdc ∷ []
    else if c == 0xdb
    then 0xdb ∷ 0xdd ∷ []
    else if c == 0x11
    then 0xdb ∷ 0xde ∷ []
    else if c == 0x13
    then 0xdb ∷ 0xdf ∷ []
    else c ∷ []

unfoldable pub h5_slip_one_byte : Skb → ℕ → Outcome Skb
h5_slip_one_byte skb c = append skb (slip_bytes c)

unfoldable pub h5_slip_msgdelim : Skb → Outcome Skb
h5_slip_msgdelim skb = append skb (0xc0 ∷ [])

abbrev pub is_w4_crc : RxState → Bool
is_w4_crc w4_crc = true
is_w4_crc _ = false

-- The lines that each case repeats: store the byte, count it into the CRC if the header says so,
-- and one byte less to come.
unfoldable pub unslip_put : H5 → ℕ → Outcome H5
unslip_put h5 byte = do
  skb ← deref h5.rx_skb
  skb' ← append skb (byte ∷ [])
  b0 ← read skb' 0
  ok (record h5 {
    rx_skb = live skb';
    message_crc =
        if not (bit_and b0 0x40 == 0) && not (is_w4_crc h5.rx_state)
        then h5_crc_update h5.message_crc byte
        else h5.message_crc;
    rx_count = u32 (h5.rx_count + 2 ^ 32 - 1);
  })

-- The byte that an escape pair stands for, after which the escape state is left.
unfoldable pub unslip_escaped : H5 → ℕ → Outcome H5
unslip_escaped h5 byte = do h5' ← unslip_put h5 byte; ok (record h5' { rx_esc_state = noesc })

unfoldable pub unslip_invalid : H5 → Outcome H5
unslip_invalid h5 = do
  _ ← skb_free h5.rx_skb
  ok (record h5 { rx_skb = null; rx_state = w4_pkt_delimiter; rx_count = 0 })

unfoldable pub unslip_in : RxEscState → H5 → ℕ → Outcome H5
unfolding unslip_put unslip_escaped unslip_invalid
unslip_in noesc h5 byte =
    if byte == 0xdb then ok (record h5 { rx_esc_state = esc }) else unslip_put h5 byte
unslip_in esc h5 byte =
    if byte == 0xdc
    then unslip_escaped h5 0xc0
    else if byte == 0xdd
    then unslip_escaped h5 0xdb
    else if byte == 0xde
    then unslip_escaped h5 0x11
    else if byte == 0xdf
    then unslip_escaped h5 0x13
    else unslip_invalid h5

unfoldable pub h5_unslip_one_byte : H5 → ℕ → Outcome H5
unfolding unslip_in
h5_unslip_one_byte h5 byte = unslip_in h5.rx_esc_state h5 byte
