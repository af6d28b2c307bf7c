-- ===== src/H5/Tests.antt =====
-- Runs of the three-wire code on concrete packets.
use br_external.Prelude.{
  ℕ, ◌<◌, ◌≡◌, refl, arith, Bool, true, false, List, [], ◌∷◌, ok, fault, ◌>>=◌, Safe, Both, ◌⊎◌,
  sym, subst, ◌++◌, ◌+◌, ◌*◌, ◌/◌, Returns, All,
}
use br_external.H5.Crc.{h5_crc_update, h5_crc_init, bit_rev16}
use br_external.H5.Crc.Reference.{crc_byte, h5_crc_update-eq-crc_byte}
use br_external.H5.Crc.Reversal.{reversed, bit_rev16-eq-reversed}
use br_external.H5.Frame.{hci_recv_frame, h5_complete_rx_pkt, h5_hdr_pkt_type}
use br_external.H5.Frame.Safety.{Kept, hci_recv_frame-Kept}
use br_external.H5.Prepare.{header, header0, header_state, h5_prepare_pkt, pkt_rel, rtb_send_ack}
use br_external.H5.Prepare.Encoding.{crc_run}
use br_external.H5.Prepare.Header.{FirstByte, header0-FirstByte, header_byte, header_length}
use br_external.H5.Prepare.Failure.{rtb_send_ack-malloc}
use br_external.H5.Skb.{Skb, null, live, fresh, contents}
use br_external.H5.Skb.Laws.{fresh-IsBlock, fresh_sizes, contents-fresh}
use br_external.H5.Slip.{h5_unslip_one_byte}
use br_external.H5.Slip.Laws.{Alone, Pair, unslip-slip_bytes}
use br_external.H5.Slip.Valid.{h5_unslip_one_byte-Valid}
use br_external.H5.State.{
  H5, Rtb, Chip, LinkState, sync, init, w4_pkt_delimiter, w4_hdr, w4_crc, noesc,
}
use br_external.H5.State.Valid.{IsByte, IsPacket, Valid, IsValid}
use br_external.H5.Recv.{h5_recv}
use br_external.H5.Recv.Phases.{started}
use br_external.H5.Recv.Payload.{arrived, Received}
use br_external.H5.Recv.RoundTrip.{h5_recv-h5_prepare_pkt}
use br_external.H5.Recv.Link.{Reached, h5_recv-Reached}
use br_external.H5.Recv.Safety.{h5_recv-Safe}

abbrev idle : ℕ → ℕ → ℕ → H5
idle expected own crc = record {
  rxseq_txack = expected;
  rxack = 0;
  use_crc = crc;
  is_txack_req = 0;
  msgq_txseq = own;
  message_crc = 0xffff;
  rx_count = 0;
  rx_state = w4_pkt_delimiter;
  rx_esc_state = noesc;
  rx_skb = null;
}

abbrev no_chip : Chip
no_chip = record {
  num_of_cmd_sent = 0;
  lmp_subver = 0;
  hci_rev = 0;
  hci_ver = 0;
  eversion = 0;
  chip_type = 0;
  chip_ver = 0;
  key_id = 0;
}

-- The receiver between packets: its link state, the number it expects, its own and CRCs on or off.
abbrev resting : LinkState → ℕ → ℕ → ℕ → Rtb
resting link expected own crc = record {
  h5 = idle expected own crc;
  link_estab_state = link;
  chip = no_chip;
  cmd_state = record { opcode = 0xfc6d; subopcode = 0; state = 0 };
  total_num = 10;
  tx_index = 1;
  rx_index = 0;
  sent = [];
  heap = [];
}

resting-IsValid : (link : LinkState) (a b crc : ℕ) → a < 8 → b < 8 → IsValid (resting link a b crc)
resting-IsValid link a b crc ha hb = record {
  h5_valid = record { holding = refl; crc = omega arith; rxseq = omega arith; txseq = omega arith };
  given = tt;
}

-- A command with a payload whose bytes have to be escaped.
abbrev command : List ℕ
command = 0x6d ∷ 0xfc ∷ 0xc0 ∷ 0xdb ∷ []

abbrev command_header : List ℕ
command_header = 0xdd ∷ 0x41 ∷ 0x00 ∷ 0xe1 ∷ []

h5_crc_update-eq-crc_byte_example : h5_crc_update 0xffff 0xd9 ≡ crc_byte 0xffff 0xd9
h5_crc_update-eq-crc_byte_example = h5_crc_update-eq-crc_byte 0xffff 0xd9 (omega arith)

bit_rev16-eq-reversed_example :
    (bit_rev16 0x1234 ≡ reversed 16 0x1234) × (bit_rev16 (bit_rev16 0x1234) ≡ 0x1234)
bit_rev16-eq-reversed_example = bit_rev16-eq-reversed 0x1234 (omega arith)

command_header_lem : header (idle 3 5 1) true 4 1 ≡ command_header
command_header_lem = unfold header header0 in refl

header0-FirstByte_example : FirstByte (idle 3 5 1) true (header0 (idle 3 5 1) true)
header0-FirstByte_example = header0-FirstByte (idle 3 5 1) true (omega arith) (omega arith)

header_length_example :
    (header_byte 1 (idle 3 5 1) true 0x123 1 / 16 + header_byte 2 (idle 3 5 1) true 0x123 1 * 16
      ≡ 0x123)
    × (h5_hdr_pkt_type (header_byte 1 (idle 3 5 1) true 0x123 1) ≡ 1)
header_length_example = header_length (idle 3 5 1) true 0x123 1 (omega arith) (omega arith)

h5_recv-Safe_example :
    Safe IsValid
      (h5_recv (resting init 3 5 1) (0xc0 ∷ 0x00 ∷ 0x2f ∷ 0x00 ∷ 0xd0 ∷ 0x02 ∷ 0x7d ∷ 0xc0 ∷ []))
h5_recv-Safe_example =
    h5_recv-Safe (resting init 3 5 1) (0xc0 ∷ 0x00 ∷ 0x2f ∷ 0x00 ∷ 0xd0 ∷ 0x02 ∷ 0x7d ∷ 0xc0 ∷ [])
      (resting-IsValid init 3 5 1 (omega arith) (omega arith)) (omega arith)

h5_recv-h5_prepare_pkt_example :
    (p : Skb) × (h5_prepare_pkt (resting init 3 5 1) command 1
      ≡ ok (live p, record (resting init 3 5 1) { h5 = header_state (idle 3 5 1) true; heap = [] }))
    × ((t : Skb) × (heap' : List Bool) × Received t (header (idle 3 5 1) true 4 1 ++ command)
        × (h5_recv (resting init 5 2 0) (contents p) ≡ (
            h5_complete_rx_pkt (
              arrived
                (resting init 5 2 0)
                heap'
                w4_crc
                (crc_run true (crc_run true h5_crc_init (header (idle 3 5 1) true 4 1)) command)
                t)
            >>= λ u. ok (started u))))
h5_recv-h5_prepare_pkt_example =
    h5_recv-h5_prepare_pkt (resting init 3 5 1) (resting init 5 2 0) command 1 true []
      (unfold pkt_rel in refl) refl (omega arith) (omega arith) (omega arith)
      (resting-IsValid init 5 2 0 (omega arith) (omega arith)) refl (λ _. refl)

-- The receiver at the start of a packet.
abbrev empty_buffer : Skb
empty_buffer = fresh 0x1005

abbrev in_packet : H5
in_packet = record (idle 3 5 1) { rx_state = w4_hdr; rx_count = 4; rx_skb = live empty_buffer }

empty_buffer-IsPacket : IsPacket empty_buffer
empty_buffer-IsPacket = record {
  block = fresh-IsBlock 0x1005 (omega arith);
  base = (fresh_sizes 0x1005).0;
  size = (fresh_sizes 0x1005).2;
  bytes = subst (All IsByte) (sym (contents-fresh 0x1005)) tt;
}

in_packet-Valid : Valid in_packet
in_packet-Valid = record {
  holding = (empty_buffer-IsPacket, omega (arith, fresh_sizes 0x1005));
  crc = omega arith;
  rxseq = omega arith;
  txseq = omega arith;
}

unslip-slip_bytes_example :
    Alone in_packet empty_buffer 0xc0 refl
      (empty_buffer-IsPacket.block)
      (omega (arith, fresh_sizes 0x1005))
      (omega arith)
      (omega arith)
      refl
    ⊎ Pair in_packet empty_buffer 0xc0 refl
        (empty_buffer-IsPacket.block)
        (omega (arith, fresh_sizes 0x1005))
        (omega arith)
        (omega arith)
        refl
unslip-slip_bytes_example =
    unslip-slip_bytes in_packet empty_buffer 0xc0 refl (empty_buffer-IsPacket.block)
      (omega (arith, fresh_sizes 0x1005)) (omega arith) (omega arith) refl

h5_unslip_one_byte-Valid_example : Returns Valid (h5_unslip_one_byte in_packet 0xdd)
h5_unslip_one_byte-Valid_example =
    h5_unslip_one_byte-Valid in_packet in_packet-Valid (omega arith) 0xdd (omega arith)

-- A command complete event, behind the header that was pulled off.
abbrev event : Skb
event = record {
  max_len = 0x1005;
  data_len = 7;
  off = 4;
  mem = 0x84 ∷ 0x74 ∷ 0x00 ∷ 0x07 ∷ 0x0e ∷ 0x05 ∷ 0x01 ∷ 0x6d ∷ 0xfc ∷ 0x00 ∷ 0x02 ∷ [];
}

hci_recv_frame-Kept_example :
    Safe (Kept (resting init 3 5 0)) (hci_recv_frame (resting init 3 5 0) event)
hci_recv_frame-Kept_example = hci_recv_frame-Kept (resting init 3 5 0) event refl refl

rtb_send_ack-malloc_example :
    (h5_prepare_pkt (record (resting init 3 5 0) { heap = false ∷ [] }) command 1
      ≡ ok (null, record (resting init 3 5 0) { heap = [] }))
    × (rtb_send_ack (record (resting init 3 5 0) { heap = false ∷ [] }) ≡ fault)
rtb_send_ack-malloc_example =
    rtb_send_ack-malloc (record (resting init 3 5 0) { heap = false ∷ [] }) [] command 1 true refl
      (unfold pkt_rel in refl)

h5_recv-Reached_example : Safe (Both IsValid (Reached sync)) (
    h5_recv
      (resting sync 3 5 1)
      (0xc0 ∷ 0x00 ∷ 0x2f ∷ 0x00 ∷ 0xd0 ∷ 0x02 ∷ 0x7d ∷ 0xc0 ∷ 0xc0 ∷ []))
h5_recv-Reached_example =
    h5_recv-Reached (resting sync 3 5 1)
      (0xc0 ∷ 0x00 ∷ 0x2f ∷ 0x00 ∷ 0xd0 ∷ 0x02 ∷ 0x7d ∷ 0xc0 ∷ 0xc0 ∷ [])
      (resting-IsValid sync 3 5 1 (omega arith) (omega arith)) (omega arith)
