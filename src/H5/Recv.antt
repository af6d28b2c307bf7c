-- ===== src/H5/Recv.antt =====
-- `h5_recv` of rtk_hciattach/hciattach_rtk.c.
pub mod Steps
pub mod Phases
pub mod Arrival
pub mod Payload
pub mod Delivery
pub mod RoundTrip
pub mod Progress
pub mod Packet
pub mod Safety
pub mod Link
use br_external.Prelude.{
  ℕ, zero, suc, ◌+◌, ◌-◌, ◌*◌, ◌/◌, bit_and, Bool, true, false, not, ◌&&◌, if◌then◌else◌, ◌==◌,
  List, [], ◌∷◌, length, Outcome, ok, exited, fault, looping, ◌>>=◌,
}
use br_external.H5.Crc.{h5_crc_init, bit_rev16}
use br_external.H5.Frame.{h5_complete_rx_pkt}
use br_external.H5.Prepare.{not8, is_set}
use br_external.H5.Skb.{Skb, SkbPtr, live, deref, read, skb_alloc, skb_free, skb_trim}
use br_external.H5.Slip.{h5_unslip_one_byte}
use br_external.H5.State.{
  H5, Rtb, LinkState, patch, RxState, w4_pkt_delimiter, w4_pkt_start, w4_hdr, w4_data, w4_crc,
  noesc,
}

-- How a round of the loop ends: with the byte used up, with the same byte to look at again, or
-- with the early `return 0`.
pub data Round : Type 0 where
  next again stop : Rtb → Round

abbrev pub is_patch : LinkState → Bool
is_patch patch = true
is_patch _ = false

-- A packet is given up: the pointer keeps its old value.
unfoldable pub drop_packet : H5 → RxState → Outcome H5
drop_packet h5 state = do
  p ← skb_free h5.rx_skb
  ok (record h5 { rx_skb = p; rx_state = state; rx_count = 0 })

-- A byte of a packet.
unfoldable pub recv_byte : Rtb → ℕ → Outcome Round
recv_byte s byte =
    if byte == 0xc0
    then (do h5' ← drop_packet s.h5 w4_pkt_start; ok (next (record s { h5 = h5' })))
    else (do h5' ← h5_unslip_one_byte s.h5 byte; ok (next (record s { h5 = h5' })))

-- The packet is given up and the loop goes on with the same byte.
unfoldable pub give_up : Rtb → Outcome Round
give_up s = do h5' ← drop_packet s.h5 w4_pkt_delimiter; ok (again (record s { h5 = h5' }))

-- A reliable packet with another number than the expected one: an acknowledgement is due, and at
-- the end of a download the number is taken over.
unfoldable pub out_of_order : Rtb → ℕ → Outcome Round
out_of_order s d0 = do
  h5' ← drop_packet (record (s.h5) { is_txack_req = 1 }) w4_pkt_delimiter
  let seq =
      if is_patch s.link_estab_state && s.tx_index == s.total_num
      then bit_and d0 0x07
      else h5'.rxseq_txack
  ok (again (record s { h5 = record h5' { rxseq_txack = seq } }))

-- The bytes of the header, by the guards of the code: its checksum, then its sequence number.
unfoldable pub check_header : Rtb → ℕ → ℕ → ℕ → ℕ → Outcome Round
check_header s d0 d1 d2 d3 =
    if not (not8 (d0 + d1 + d2) == d3)
    then give_up s
    else if is_set (bit_and d0 0x80) && not (bit_and d0 0x07 == s.h5.rxseq_txack)
    then out_of_order s d0
    else ok (
        again
          (record s { h5 = record (s.h5) { rx_state = w4_data; rx_count = d1 / 16 + d2 * 16 } }))

unfoldable pub recv_hdr : Rtb → Outcome Round
recv_hdr s = do
  skb ← deref s.h5.rx_skb
  d0 ← read skb 0
  d1 ← read skb 1
  d2 ← read skb 2
  d3 ← read skb 3
  check_header s d0 d1 d2 d3

unfoldable pub recv_data : Rtb → Outcome Round
recv_data s = do
  skb ← deref s.h5.rx_skb
  d0 ← read skb 0
  if is_set (bit_and d0 0x40)
      then ok (again (record s { h5 = record (s.h5) { rx_state = w4_crc; rx_count = 2 } }))
      else (do s' ← h5_complete_rx_pkt s; ok (again s'))

-- The two bytes at the end of the buffer.
unfoldable pub h5_get_crc : Skb → Outcome ℕ
h5_get_crc skb = do
  hi ← read skb (skb.data_len - 2)
  lo ← read skb (skb.data_len - 2 + 1)
  ok (lo + hi * 256)

unfoldable pub recv_crc : Rtb → Outcome Round
recv_crc s = do
  skb ← deref s.h5.rx_skb
  crc ← h5_get_crc skb
  if not (bit_rev16 s.h5.message_crc == crc) then give_up s else (do
    s' ←
        h5_complete_rx_pkt
          (record s { h5 = record (s.h5) { rx_skb = live (skb_trim skb (skb.data_len - 2)) } })
    ok (again s'))

unfoldable pub recv_delimiter : Rtb → ℕ → Outcome Round
recv_delimiter s byte =
    if byte == 0xc0
    then ok (next (record s { h5 = record (s.h5) { rx_state = w4_pkt_start } }))
    else ok (next s)

unfoldable pub alloc_packet : Rtb → SkbPtr × List Bool → Outcome Round
alloc_packet s (live skb, heap') = ok (
    again (record s {
      heap = heap';
      h5 = record (s.h5) {
        rx_state = w4_hdr;
        rx_count = 4;
        rx_esc_state = noesc;
        message_crc = h5_crc_init;
        rx_skb = live skb;
      };
    }))
alloc_packet s (p, heap') = ok (
    stop (record s {
      heap = heap';
      h5 = record (s.h5) {
        rx_state = w4_pkt_delimiter;
        rx_count = 0;
        rx_esc_state = noesc;
        message_crc = h5_crc_init;
        rx_skb = p;
      };
    }))

unfoldable pub recv_start : Rtb → ℕ → Outcome Round
recv_start s byte = if byte == 0xc0 then ok (next s) else alloc_packet s (skb_alloc 0x1005 s.heap)

-- The `switch` on `rx_state`.
unfoldable pub recv_in : RxState → Rtb → ℕ → Outcome Round
recv_in w4_hdr s byte = recv_hdr s
recv_in w4_data s byte = recv_data s
recv_in w4_crc s byte = recv_crc s
recv_in w4_pkt_delimiter s byte = recv_delimiter s byte
recv_in w4_pkt_start s byte = recv_start s byte

-- A round of the loop.
unfoldable pub round : Rtb → ℕ → Outcome Round
round s byte = if is_set s.h5.rx_count then recv_byte s byte else recv_in s.h5.rx_state s byte

-- How the loop goes on after a round: with the next byte, or with the same one.
unfoldable pub turn : (Rtb → Outcome Rtb) → (Rtb → Outcome Rtb) → Outcome Round → Outcome Rtb
turn on back (ok (next s)) = on s
turn on back (ok (again s)) = back s
turn on back (ok (stop s)) = ok s
turn on back exited = exited
turn on back fault = fault
turn on back looping = looping

-- The loop over the bytes, on fuel.
unfoldable pub recv_loop : ℕ → Rtb → List ℕ → Outcome Rtb
unfolding turn
recv_loop zero s bytes = looping
recv_loop (suc fuel) s [] = ok s
recv_loop (suc fuel) s (byte ∷ bytes) =
    turn (λ t. recv_loop fuel t bytes) (λ t. recv_loop fuel t (byte ∷ bytes)) (round s byte)

-- Three rounds at most for a byte, and one round past the last byte.
unfoldable pub h5_recv : Rtb → List ℕ → Outcome Rtb
unfolding recv_loop
h5_recv s bytes = recv_loop (3 * length bytes + 3) s bytes
