-- ===== src/H5/Frame/Settled.antt =====
-- The receiver between packets, through everything that a complete packet sets off.
use br_external.Prelude.{
  ℕ, ◌≤◌, ◌||◌, length, get_or, if◌then◌else◌, ok, ◌+◌, ◌%◌, ◌≡◌, refl, arith, bit_and, Safe,
  Safe-bind, Safe-weaken, Returns-Safe,
}
use br_external.Prelude.Bits.{bit_and_7}
use br_external.H5.Skb.{Skb, null, live, read}
use br_external.H5.State.{H5, Rtb, w4_pkt_delimiter}
use br_external.H5.State.Valid.{IsValid}
use br_external.H5.Prepare.{is_set}
use br_external.H5.Frame.{take_header, route, answer, release, h5_complete_rx_pkt, h5_hdr_reliable}
use br_external.H5.Frame.Safety.{read_then}
use br_external.H5.Frame.Due.{Idle, Settled, pending, DueBy, First, Paid, route-Due, answer-Paid}

take_header-Idle : (h5 : H5) (hdr0 : ℕ) → Idle h5 → Idle (take_header h5 hdr0)
unfolding take_header
take_header-Idle h5 hdr0 v = ground (arith, bit_and_7 ((bit_and hdr0 7 + 1) % 256))

first_byte : (skb : Skb) → skb.max_len ≡ 0x1005 → skb.off ≡ 0 → read skb 0 ≡ ok (get_or skb.mem 0 0)
unfolding read
first_byte skb m o = ground (arith, m, o)

-- Between packets: the invariant, and the receiver waits for a delimiter.
abbrev pub Waiting : Rtb → Type 0
Waiting t = IsValid t × (t.h5.rx_state ≡ w4_pkt_delimiter)

-- At the end of a packet: nothing is held, no acknowledgement is due, and `n` packets are sent.
abbrev pub Answered : ℕ → Rtb → Type 0
Answered n t = Waiting t × (t.h5.rx_skb ≡ null) × (t.h5.is_txack_req ≡ 0) × (n ≤ length t.sent)

release-Answered : (n : ℕ) (s : Rtb) (skb : Skb) → Paid n s → Safe (Answered n) (release s skb)
unfolding release
release-Answered n s skb v =
    let i = v.0.settled.idle in
    (
      (
        record {
          h5_valid = record {
            holding = i.none_left;
            crc = i.crc;
            rxseq = i.rxseq;
            txseq = i.txseq;
          };
          given = v.0.settled.given;
        },
        refl,
      ),
      refl,
      v.1,
      v.0.sent,
    )

-- What a packet with this first byte makes due, or was due before: one acknowledgement, or none.
abbrev pub acks_due : H5 → ℕ → ℕ
acks_due h5 hdr0 = if is_set (h5_hdr_reliable hdr0) || is_set h5.is_txack_req then 1 else 0

take_header-pending : (h5 : H5) (hdr0 : ℕ) → acks_due h5 hdr0 ≤ pending (take_header h5 hdr0)
unfolding take_header
take_header-pending h5 hdr0 = ground arith

pub h5_complete_rx_pkt-Answered :
    (s : Rtb) (skb : Skb)
    → s.h5.rx_skb ≡ live skb
    → skb.max_len ≡ 0x1005
    → skb.off ≡ 0
    → Settled s
    → Safe (Answered (length s.sent + acks_due s.h5 (get_or skb.mem 0 0))) (h5_complete_rx_pkt s)
unfolding h5_complete_rx_pkt
h5_complete_rx_pkt-Answered s skb held m o v =
    let hdr0 = get_or skb.mem 0 0 in
    let n = length s.sent + acks_due s.h5 hdr0 in
    let headed : Rtb = record s { h5 = take_header s.h5 hdr0 } in
    let first : read skb 0 ≡ ok hdr0 = first_byte skb m o in
    let due : DueBy n headed = record {
      settled = record { idle = take_header-Idle s.h5 hdr0 v.idle; given = v.given };
      count = omega (arith, take_header-pending s.h5 hdr0);
    } in
    simp (held, first)
      (read_then (Answered n) skb 1 _ (omega arith) λ h1.
        Safe-bind (First n) (Answered n) (route headed skb (bit_and h1 0x0f)) _
          (route-Due n headed skb (bit_and h1 0x0f) m o due)
          λ r w.
            Safe-bind (Paid n) (Answered n) (answer r.0) _
              (Returns-Safe (Paid n) (answer r.0) (answer-Paid n r.0 w))
              λ s2 w2. release-Answered n s2 r.1 w2)

pub h5_complete_rx_pkt-Waiting :
    (s : Rtb) (skb : Skb)
    → s.h5.rx_skb ≡ live skb
    → skb.max_len ≡ 0x1005
    → skb.off ≡ 0
    → Settled s
    → Safe Waiting (h5_complete_rx_pkt s)
h5_complete_rx_pkt-Waiting s skb held m o v =
    Safe-weaken (Answered _) Waiting (h5_complete_rx_pkt s)
      (h5_complete_rx_pkt-Answered s skb held m o v) (λ t w. w.0)
