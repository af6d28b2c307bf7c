-- ===== src/Driver/Tests.antt =====
-- Tests of the model of hci_rtk_h5.c, and its theorems at concrete inputs.
use br_external.Prelude.{
  ℕ, ◌+◌, ◌%◌, ◌≤◌, ◌≡◌, ◌≢◌, refl, arith, true, false, some, List, [], ◌∷◌, ◌++◌, take, drop,
  get_elem?,
}
use br_external.Coex.Hci.{linux}
use br_external.Coex.Tests.{closed}
use br_external.H5.Crc.{bit_rev16}
use br_external.H5.Slip.{slip_bytes}
use br_external.H5.State.{w4_pkt_delimiter, noesc}
use br_external.Driver.State.{H5Struct, Pkt, no_skb, command, acldata}
use br_external.Driver.Frame.Readback.{received, Reads}
use br_external.Driver.Frame.{hdr, slip_all, crc_tail, frame, room, h5_prepare_pkt}
use br_external.Driver.Frame.Fits.{h5_prepare_pkt-fits}
use br_external.Driver.Queues.{queue_of, h5_dequeue, h5_pkt_cull}
use br_external.Driver.Recv.Sound.{Sound}
use br_external.Driver.Window.{Window, Step, enqueues, dequeues, times_out, receives, run}
use br_external.Driver.Window.Cull.{h5_pkt_cull-acked, h5_pkt_cull-unknown}
use br_external.Driver.Window.Numbered.{h5_dequeue-numbered}

abbrev empty : H5Struct
empty = record {
  unack = [];
  rel = [];
  unrel = [];
  retrans_work = false;
  use_crc = true;
  rxack = 0;
  rxseq_txack = 0;
  txack_req = false;
  msgq_txseq = 0;
  given = [];
  received = [];
  woken = false;
  coex = closed;
  rx_count = 0;
  rx_skb = no_skb;
  rx_state = w4_pkt_delimiter;
  rx_esc_state = noesc;
  message_crc = 0;
  misused = false;
}

abbrev reset_cmd : Pkt
reset_cmd = record { pkt_type = command; bytes = 0x03 ∷ 0x0c ∷ 0 ∷ [] }

abbrev data_pkt : Pkt
data_pkt = record { pkt_type = acldata; bytes = 0x0b ∷ 0x20 ∷ 1 ∷ 0 ∷ 0xc0 ∷ [] }

-- Two packets that were sent as 7 and 0, one behind them, and seven acknowledged before.
abbrev seven : List Pkt
seven = reset_cmd ∷ reset_cmd ∷ reset_cmd ∷ reset_cmd ∷ reset_cmd ∷ reset_cmd ∷ reset_cmd ∷ []

abbrev stream_of_ten : List Pkt
stream_of_ten = seven ++ reset_cmd ∷ data_pkt ∷ data_pkt ∷ []

abbrev busy : H5Struct
busy = record empty {
  unack = reset_cmd ∷ data_pkt ∷ [];
  rel = data_pkt ∷ [];
  retrans_work = true;
  msgq_txseq = 1;
  rxack = 0;
}

busy-Window : Window stream_of_ten seven busy
unfolding queue_of
busy-Window = record {
  split = refl;
  number = refl;
  small = omega arith;
  rel_fit = (refl, tt);
  unack_fit = (refl, (refl, tt));
  unrel_fit = tt;
}

-- A command with the number 0, on channel 1, which acknowledges nothing.
frame_of_reset :
    h5_prepare_pkt bit_rev16 reset_cmd.bytes command (record empty { use_crc = false }) ≡ (
      some (0xc0 ∷ 0x80 ∷ 0x31 ∷ 0 ∷ 0x4e ∷ 3 ∷ 0x0c ∷ 0 ∷ 0xc0 ∷ []),
      record empty { use_crc = false; msgq_txseq = 1 },
    )
unfolding h5_prepare_pkt frame hdr slip_all slip_bytes crc_tail
frame_of_reset = refl

h5_pkt_cull-acked_example :
    ((h5_pkt_cull busy).unack ≡ drop 1 busy.unack)
    × Window stream_of_ten (seven ++ take 1 busy.unack) (h5_pkt_cull busy)
h5_pkt_cull-acked_example =
    h5_pkt_cull-acked stream_of_ten seven busy 1 busy-Window (omega arith) refl

-- The number 4 is none of 7, 0 and 1.
abbrev strange : H5Struct
strange = record busy { rxack = 4 }

strange-Window : Window stream_of_ten seven strange
unfolding queue_of
strange-Window = record {
  split = refl;
  number = refl;
  small = omega arith;
  rel_fit = (refl, tt);
  unack_fit = (refl, (refl, tt));
  unrel_fit = tt;
}

strange_lem : (j : ℕ) → j ≤ 2 → 4 ≢ (7 + j) % 8
strange_lem j le = λ e. omega (arith, e, le)

h5_pkt_cull-unknown_example :
    ((h5_pkt_cull strange).unack ≡ strange.unack) × Window stream_of_ten seven (h5_pkt_cull strange)
h5_pkt_cull-unknown_example =
    h5_pkt_cull-unknown stream_of_ten seven strange strange-Window strange_lem

h5_dequeue-numbered_example :
    let left = (h5_dequeue bit_rev16 busy).1 in
    (get_elem? stream_of_ten 9 ≡ some data_pkt)
    × ((sent : List ℕ) × ((h5_dequeue bit_rev16 busy).0 ≡ some sent)
        × Reads (received sent) 1 busy.rxseq_txack busy.use_crc acldata data_pkt.bytes)
    × (left.unack ≡ busy.unack ++ data_pkt ∷ [])
    × (left.rel ≡ [])
    × (left.txack_req ≡ false)
h5_dequeue-numbered_example =
    h5_dequeue-numbered bit_rev16 stream_of_ten seven [] data_pkt busy busy-Window refl refl
      (omega arith) refl (omega arith)

-- Two packets are queued and sent, the first is acknowledged, the other one is sent again.
abbrev session : List Step
session =
    enqueues reset_cmd
    ∷ enqueues data_pkt
    ∷ dequeues
    ∷ dequeues
    ∷ receives (0xc0 ∷ 0x08 ∷ 0 ∷ 0 ∷ 0xf7 ∷ 0xc0 ∷ [])
    ∷ times_out
    ∷ dequeues
    ∷ []

h5_prepare_pkt-fits_example : 9 ≤ room 3
unfolding h5_prepare_pkt frame hdr slip_all slip_bytes crc_tail
h5_prepare_pkt-fits_example =
    h5_prepare_pkt-fits bit_rev16 reset_cmd.bytes command (record empty { use_crc = false })
      (0xc0 ∷ 0x80 ∷ 0x31 ∷ 0 ∷ 0x4e ∷ 3 ∷ 0x0c ∷ 0 ∷ 0xc0 ∷ []) refl

-- A packet on the channel for link control, in full, and the start of another one.
abbrev line : List ℕ
line = 0xc0 ∷ 0x08 ∷ 0x2f ∷ 0 ∷ 0xc8 ∷ 0x01 ∷ 0x7e ∷ 0xc0 ∷ 0xc0 ∷ 0x08 ∷ []

-- In the session above one packet is still waiting, sent a second time, with the number 1.
session_end :
    ((run bit_rev16 linux session empty).unack ≡ data_pkt ∷ [])
    × ((run bit_rev16 linux session empty).msgq_txseq ≡ 2)
unfolding run
session_end = (refl, refl)
