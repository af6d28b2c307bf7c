-- ===== src/H5/Recv/Progress.antt =====
-- The rounds of `h5_recv`: how they come nearer to using a byte up, and the bytes of a packet.
use br_external.Prelude.{
  ℕ, zero, suc, ◌+◌, ◌-◌, ◌≤◌, ◌<◌, ◌≡◌, refl, sym, subst, arith, true, false, ◌==◌, ok, Safe,
  Safe-bind, Returns-Safe, if_cases,
}
use br_external.H5.Frame.Safety.{read_then}
use br_external.H5.Frame.Settled.{Waiting}
use br_external.H5.Prepare.{is_set}
use br_external.H5.Skb.{Skb, live, freed, skb_free}
use br_external.H5.Slip.{h5_unslip_one_byte}
use br_external.H5.Slip.Valid.{h5_unslip_one_byte-Valid}
use br_external.H5.State.{H5, Rtb, RxState, w4_pkt_delimiter, w4_pkt_start, w4_hdr, w4_data, w4_crc}
use br_external.H5.State.Valid.{IsByte, IsPacket, Valid, IsValid, live_of}
use br_external.H5.Recv.{Round, next, again, stop, drop_packet, recv_byte, h5_get_crc}

-- How many rounds may pass before a byte is used up.
abbrev pub rank : ℕ → RxState → ℕ
rank (suc n) st = 0
rank zero w4_pkt_delimiter = 0
rank zero w4_pkt_start = 1
rank zero w4_hdr = 2
rank zero w4_data = 1
rank zero w4_crc = 1

pub rank-le : (n : ℕ) (st : RxState) → rank n st ≤ 2
rank-le (suc n) st = omega arith
rank-le zero w4_pkt_delimiter = omega arith
rank-le zero w4_pkt_start = omega arith
rank-le zero w4_hdr = omega arith
rank-le zero w4_data = omega arith
rank-le zero w4_crc = omega arith

pub rank_data : (n : ℕ) → rank n w4_data < 2
rank_data zero = omega arith
rank_data (suc n) = omega arith

-- A round ends in a valid state, and nearer to using the byte up.
abbrev pub Progress : ℕ → Round → Type 0
Progress r (next t) = IsValid t
Progress r (again t) = IsValid t × (rank t.h5.rx_count t.h5.rx_state < r)
Progress r (stop t) = IsValid t

abbrev pub dropped : H5 → RxState → H5
dropped h5 st = record h5 { rx_skb = freed; rx_state = st; rx_count = 0 }

pub drop_packet_lem :
    (h5 : H5) (st : RxState) (skb : Skb)
    → h5.rx_skb ≡ live skb
    → drop_packet h5 st ≡ ok (dropped h5 st)
unfolding drop_packet skb_free
drop_packet_lem h5 st skb e = simp e

pub recv_byte-Safe :
    (s : Rtb) (byte r : ℕ)
    → IsValid s
    → IsByte byte
    → 0 < s.h5.rx_count
    → Safe (Progress r) (recv_byte s byte)
unfolding recv_byte
recv_byte-Safe s byte r v b more =
    let w = v.h5_valid in
    let (skb, e, p, room) = live_of s.h5.rx_state s.h5.rx_count s.h5.rx_skb w.holding more in
    if_cases (Safe (Progress r)) (byte == 0xc0) _ _
      (λ _. rw (drop_packet_lem s.h5 w4_pkt_start skb e) (record {
        h5_valid = record { holding = refl; crc = w.crc; rxseq = w.rxseq; txseq = w.txseq };
        given = v.given;
      }))
      (λ _.
        Safe-bind Valid (Progress r) (h5_unslip_one_byte s.h5 byte) _
          (Returns-Safe Valid (h5_unslip_one_byte s.h5 byte)
            (h5_unslip_one_byte-Valid s.h5 w more byte b))
          (λ h5' w'. record { h5_valid = w'; given = v.given }))

pub rank_delimiter : (n : ℕ) → rank n w4_pkt_delimiter < 1
rank_delimiter zero = omega arith
rank_delimiter (suc n) = omega arith

pub again_of : (t : Rtb) → Waiting t → Progress 1 (again t)
again_of t w =
    (w.0, subst (λ st. rank t.h5.rx_count st < 1) (sym w.1) (rank_delimiter t.h5.rx_count))

abbrev pub AnyCrc : ℕ → Type 0
AnyCrc _ = Unit

pub h5_get_crc-Safe : (skb : Skb) → IsPacket skb → 6 ≤ skb.data_len → Safe AnyCrc (h5_get_crc skb)
unfolding h5_get_crc
h5_get_crc-Safe skb p lo =
    let w = p.block.within in
    read_then AnyCrc skb (skb.data_len - 2) _ (omega (arith, w, lo))
      λ hi. read_then AnyCrc skb (skb.data_len - 2 + 1) _ (omega (arith, w, lo)) λ lo'. tt

pub is_set→lt : (n : ℕ) → is_set n ≡ true → 0 < n
is_set→lt n h = ground arith

pub is_set→eq : (n : ℕ) → is_set n ≡ false → n ≡ 0
is_set→eq n h = ground arith
