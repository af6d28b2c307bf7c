-- ===== src/Driver/Recv.antt =====
-- `h5_recv` and `h5_unslip_one_byte` of hci_rtk_h5.c.
pub mod Ends
pub mod Sound
use br_external.Prelude.{
  ℕ, zero, suc, ◌+◌, ◌-◌, ◌*◌, ◌/◌, ◌%◌, Bool, true, false, not, ◌&&◌, ◌||◌, if◌then◌else◌, ltb,
  ◌==◌, List, [], ◌∷◌, ◌++◌, length, get_or, take,
}
use br_external.Coex.Hci.{Hci}
use br_external.Coex.State.{alloc}
use br_external.H5.Crc.{h5_crc_update, h5_crc_init}
use br_external.H5.State.{
  RxState, RxEscState, w4_pkt_delimiter, w4_pkt_start, w4_hdr, w4_data, w4_crc, noesc, esc,
}
use br_external.Driver.State.{H5Struct, RxSkb, no_skb, freed_skb, skb_of, rx_room}
use br_external.Driver.Queues.{is_reliable, h5_complete_rx_pkt}

-- The bytes of `rx_skb`, and whether it is a buffer.
abbrev pub data_of : RxSkb → List ℕ
data_of no_skb = []
data_of freed_skb = []
data_of (skb_of bytes) = bytes

abbrev pub is_buffer : RxSkb → Bool
is_buffer no_skb = false
is_buffer freed_skb = false
is_buffer (skb_of bytes) = true

abbrev pub is_w4_crc : RxState → Bool
is_w4_crc w4_crc = true
is_w4_crc w4_pkt_delimiter = false
is_w4_crc w4_pkt_start = false
is_w4_crc w4_hdr = false
is_w4_crc w4_data = false

-- The header's bit for a CRC.
abbrev pub has_crc : List ℕ → Bool
has_crc skb = get_or skb 0 0 / 64 % 2 == 1

-- A read of `rx_skb`.
abbrev pub used : H5Struct → H5Struct
used h5 = record h5 { misused = h5.misused || not (is_buffer h5.rx_skb) }

-- The lines that each case repeats: the byte goes into the buffer and, before the CRC, is counted in.
unfoldable pub put_byte : ℕ → H5Struct → H5Struct
put_byte byte h5 =
    let skb = data_of h5.rx_skb ++ byte ∷ [] in
    record h5 {
      rx_skb = skb_of skb;
      message_crc =
          if has_crc skb && not (is_w4_crc h5.rx_state)
          then h5_crc_update h5.message_crc byte
          else h5.message_crc;
      rx_count = h5.rx_count - 1;
      misused = h5.misused || not (is_buffer h5.rx_skb) || ltb rx_room (length skb);
    }

unfoldable pub h5_unslip_one_byte : ℕ → H5Struct → H5Struct
unfolding put_byte
h5_unslip_one_byte byte h5 = elim h5.rx_esc_state [
  | noesc ↦ if byte == 0xdb then record h5 { rx_esc_state = esc } else put_byte byte h5
  | esc ↦
      let plain : H5Struct = record h5 { rx_esc_state = noesc } in
      if byte == 0xdc
      then put_byte 0xc0 plain
      else if byte == 0xdd
      then put_byte 0xdb plain
      else if byte == 0xde
      then put_byte 0x11 plain
      else if byte == 0xdf
      then put_byte 0x13 plain
      else record (used h5) { rx_skb = no_skb; rx_state = w4_pkt_delimiter; rx_count = 0 }
]

-- `kfree_skb`, and back to a state.
abbrev pub freed_to : RxState → H5Struct → H5Struct
freed_to state h5 = record (used h5) { rx_skb = freed_skb; rx_state = state; rx_count = 0 }

-- A byte of a packet.
unfoldable pub in_packet : ℕ → H5Struct → H5Struct
unfolding h5_unslip_one_byte
in_packet byte h5 = if byte == 0xc0 then freed_to w4_pkt_start h5 else h5_unslip_one_byte byte h5

-- The header is complete: its checksum, and the number of a reliable packet.
unfoldable pub in_hdr : H5Struct → H5Struct
in_hdr h5 =
    let skb = data_of h5.rx_skb in
    let b = λ (i : ℕ). get_or skb i 0 in
    if not (255 - (b 0 + b 1 + b 2) % 256 == b 3)
    then freed_to w4_pkt_delimiter h5
    else if is_reliable skb && not (b 0 % 8 == h5.rxseq_txack)
    then record (freed_to w4_pkt_delimiter h5) { txack_req = true; woken = true }
    else record (used h5) { rx_state = w4_data; rx_count = b 1 / 16 + b 2 * 16 }

-- The payload is complete.
unfoldable pub in_data : Hci → H5Struct → H5Struct
unfolding h5_complete_rx_pkt
in_data hci h5 =
    let skb = data_of h5.rx_skb in
    if has_crc skb
    then record (used h5) { rx_state = w4_crc; rx_count = 2 }
    else h5_complete_rx_pkt hci skb (used h5)

-- `bscp_get_crc`: the last two bytes, the high one first.
unfoldable pub bscp_get_crc : List ℕ → ℕ
bscp_get_crc skb = get_or skb (length skb - 2) 0 * 256 + get_or skb (length skb - 1) 0

unfoldable pub in_crc : (ℕ → ℕ) → Hci → H5Struct → H5Struct
unfolding bscp_get_crc h5_complete_rx_pkt
in_crc bitrev16 hci h5 =
    let skb = data_of h5.rx_skb in
    if bitrev16 h5.message_crc == bscp_get_crc skb
    then h5_complete_rx_pkt hci (take (length skb - 2) skb) (used h5)
    else freed_to w4_pkt_delimiter h5

-- Between packets: a delimiter is looked for, and then a packet that starts.
unfoldable pub in_delimiter : ℕ → H5Struct → H5Struct
in_delimiter byte h5 = if byte == 0xc0 then record h5 { rx_state = w4_pkt_start } else h5

abbrev pub started : H5Struct → H5Struct
started h5 = record h5 {
  rx_state = w4_hdr;
  rx_count = 4;
  rx_esc_state = noesc;
  message_crc = h5_crc_init;
  rx_skb = skb_of [];
  given = (alloc h5.given).1;
}

-- Without a buffer `h5_recv` returns.
abbrev pub not_started : H5Struct → H5Struct
not_started h5 = record h5 {
  rx_state = w4_pkt_delimiter;
  rx_count = 0;
  rx_esc_state = noesc;
  message_crc = h5_crc_init;
  rx_skb = no_skb;
  given = (alloc h5.given).1;
}

-- One round at a byte: whether the byte is used up, whether the loop is left, and the state.
unfoldable pub round : (ℕ → ℕ) → Hci → ℕ → H5Struct → Bool × Bool × H5Struct
unfolding in_packet in_hdr in_data in_crc in_delimiter
round bitrev16 hci byte h5 =
    if not (h5.rx_count == 0) then (true, false, in_packet byte h5) else elim h5.rx_state [
      | w4_hdr ↦ (false, false, in_hdr h5)
      | w4_data ↦ (false, false, in_data hci h5)
      | w4_crc ↦ (false, false, in_crc bitrev16 hci h5)
      | w4_pkt_delimiter ↦ (true, false, in_delimiter byte h5)
      | w4_pkt_start ↦
          if byte == 0xc0
          then (true, false, h5)
          else if (alloc h5.given).0
          then (false, false, started h5)
          else (false, true, not_started h5)
    ]

-- `while (count)`, on fuel; false is fuel that did not suffice.
unfoldable pub rounds : ℕ → (ℕ → ℕ) → Hci → List ℕ → H5Struct → Bool × H5Struct
unfolding round
rounds fuel bitrev16 hci [] h5 = (true, h5)
rounds zero bitrev16 hci (byte ∷ bytes) h5 = (false, h5)
rounds (suc fuel) bitrev16 hci (byte ∷ bytes) h5 =
    let (taken, stop, h5') = round bitrev16 hci byte h5 in
    let next = rounds fuel bitrev16 hci (if taken then bytes else byte ∷ bytes) h5' in
    if stop then (true, h5') else next

unfoldable pub h5_recv : (ℕ → ℕ) → Hci → List ℕ → H5Struct → Bool × H5Struct
unfolding rounds
h5_recv bitrev16 hci bytes h5 = rounds (4 * length bytes + 3) bitrev16 hci bytes h5
