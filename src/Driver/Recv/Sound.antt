-- ===== src/Driver/Recv/Sound.antt =====
-- The buffer of `h5_recv` in hci_rtk_h5.c: it is used only while it is one, and never overfilled.
pub mod Rounds
pub mod Whole
use br_external.Prelude.{
  ℕ, zero, suc, ◌+◌, ◌*◌, ◌/◌, ◌-◌, ◌%◌, ◌≤◌, ◌<◌, ◌≡◌, ◌≢◌, refl, sym, ap, ◌∙◌, subst, arith, Bool,
  Bool-cases, true, false, not, ◌||◌, ltb, if_cases, if◌then◌else◌, ◌==◌, List, [], ◌∷◌, ◌++◌,
  length, length-append, take, get_or, All, All-append, get_or-All, ◌⊎◌, inl, inr,
}
use br_external.Coex.Hci.{Hci}
use br_external.Coex.State.{alloc}
use br_external.H5.State.{
  RxState, RxEscState, w4_pkt_delimiter, w4_pkt_start, w4_hdr, w4_data, w4_crc, noesc, esc,
}
use br_external.Driver.State.{H5Struct, RxSkb, no_skb, freed_skb, skb_of, rx_room}
use br_external.Driver.Recv.{
  data_of, is_buffer, used, has_crc, put_byte, freed_to, h5_unslip_one_byte, in_packet, in_hdr,
  in_data, in_crc, in_delimiter, started, not_started, round, rounds, h5_recv, bscp_get_crc,
}
use br_external.Driver.Queues.{h5_complete_rx_pkt}
use br_external.Driver.Recv.Ends.{h5_recv-ends}

-- In a packet there is a buffer, with room for the bytes that are to come; else none are.
abbrev pub Fits : RxState → ℕ → RxSkb → Type 0
Fits w4_pkt_delimiter n skb = n ≡ 0
Fits w4_pkt_start n skb = n ≡ 0
Fits w4_hdr n skb = (is_buffer skb ≡ true) × (length (data_of skb) + n ≤ 4)
Fits w4_data n skb = (is_buffer skb ≡ true) × (length (data_of skb) + n ≤ 4 + 4095)
Fits w4_crc n skb = (is_buffer skb ≡ true) × (length (data_of skb) + n ≤ rx_room)

abbrev pub IsByte : ℕ → Type 0
IsByte b = b < 256

pub record Sound (h5 : H5Struct) : Type 0 where
  pub unmisused : h5.misused ≡ false
  pub bytes : All IsByte (data_of h5.rx_skb)
  pub fits : Fits h5.rx_state h5.rx_count h5.rx_skb

-- A byte goes into a buffer with room.
put_into :
    (byte r : ℕ) (h5 : H5Struct)
    → h5.misused ≡ false
    → is_buffer h5.rx_skb ≡ true
    → length (data_of h5.rx_skb) + h5.rx_count ≤ r
    → r ≤ rx_room
    → 0 < h5.rx_count
    → ((put_byte byte h5).misused ≡ false)
      × (length (data_of (put_byte byte h5).rx_skb) + (put_byte byte h5).rx_count ≤ r)
unfolding put_byte
put_into byte r h5 unmisused buffer fits small some_left =
    let one = length-append (data_of h5.rx_skb) (byte ∷ []) in
    (
      ground (arith, unmisused, buffer, one, fits, small, some_left),
      omega (arith, one, fits, some_left),
    )

put_byte-Fits :
    (byte : ℕ) (h5 : H5Struct) (state : RxState)
    → h5.misused ≡ false
    → 0 < h5.rx_count
    → Fits state h5.rx_count h5.rx_skb
    → ((put_byte byte h5).misused ≡ false)
      × Fits state (put_byte byte h5).rx_count (put_byte byte h5).rx_skb
unfolding put_byte
put_byte-Fits byte h5 w4_pkt_delimiter u left f = absurd (omega (arith, left, f))
put_byte-Fits byte h5 w4_pkt_start u left f = absurd (omega (arith, left, f))
put_byte-Fits byte h5 w4_hdr u left f =
    let p = put_into byte 4 h5 u f.0 f.1 (omega arith) left in (p.0, (refl, p.1))
put_byte-Fits byte h5 w4_data u left f =
    let p = put_into byte 4099 h5 u f.0 f.1 (omega arith) left in (p.0, (refl, p.1))
put_byte-Fits byte h5 w4_crc u left f =
    let p = put_into byte 0x1005 h5 u f.0 f.1 (omega arith) left in (p.0, (refl, p.1))

pub put_byte-Sound :
    (byte : ℕ) (h5 : H5Struct) → byte < 256 → 0 < h5.rx_count → Sound h5 → Sound (put_byte byte h5)
unfolding put_byte
put_byte-Sound byte h5 small left s =
    let p = put_byte-Fits byte h5 h5.rx_state s.unmisused left s.fits in
    record {
      unmisused = p.0;
      bytes = All-append IsByte (data_of h5.rx_skb) (byte ∷ []) s.bytes (small, tt);
      fits = p.1;
    }

-- While bytes are to come there is a buffer.
pub buffer_there :
    (n : ℕ) (state : RxState) (skb : RxSkb) → 0 < n → Fits state n skb → is_buffer skb ≡ true
buffer_there n w4_pkt_delimiter skb left f = absurd (omega (arith, left, f))
buffer_there n w4_pkt_start skb left f = absurd (omega (arith, left, f))
buffer_there n w4_hdr skb left f = f.0
buffer_there n w4_data skb left f = f.0
buffer_there n w4_crc skb left f = f.0

pub freed_to-Sound :
    (h5 : H5Struct)
    → h5.misused ≡ false
    → is_buffer h5.rx_skb ≡ true
    → Sound (freed_to w4_pkt_delimiter h5) × Sound (freed_to w4_pkt_start h5)
freed_to-Sound h5 u buffer = (
  record { unmisused = ground (arith, u, buffer); bytes = tt; fits = refl },
  record { unmisused = ground (arith, u, buffer); bytes = tt; fits = refl },
)
