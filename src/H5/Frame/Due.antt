-- ===== src/H5/Frame/Due.antt =====
-- What a packet sets off in the receiver, with the acknowledgements that are sent and still due.
use br_external.Prelude.{
  ℕ, ◌≤◌, ◌++◌, ap, length, length-append, if◌then◌else◌, ◌+◌, ◌%◌, ◌<◌, ◌^◌, ◌≡◌, refl, sym, subst,
  arith, Bool, true, false, ◌&&◌, ◌==◌, ltb, List, [], ◌∷◌, Safe, Safe-bind, Safe-weaken, Returns,
  Returns-bind, Returns-Safe, if_cases,
}
use br_external.Prelude.Bits.{bit_and_7}
use br_external.H5.Skb.{Skb, contents, skb_free, malloc}
use br_external.H5.State.{H5, Rtb, LinkState, sync, config, init, patch, hci_reset, active}
use br_external.H5.State.Valid.{AllGiven}
use br_external.H5.Prepare.{rtb_send_ack, pkt_rel, header_state, is_set, h5_ack_pkt}
use br_external.H5.Prepare.Encoding.{h5_prepare_pkt-frame}
use br_external.H5.Frame.{
  internal_sync, internal_config, internal_in, h5_handle_internal_rx, is_passed_up, pass_up,
  keep_here, route, answer, hci_recv_frame, sync_resp_pkt, conf_resp_pkt,
}
use br_external.H5.Frame.Safety.{read_then, pull_then, Near, Kept, hci_recv_frame-Kept}

-- No byte is to come, and the numbers are in range.
pub record Idle (h5 : H5) : Type 0 where
  pub none_left : h5.rx_count ≡ 0
  pub crc : h5.message_crc < 2 ^ 16
  pub rxseq : h5.rxseq_txack < 8
  pub txseq : h5.msgq_txseq < 8

pub record Settled (s : Rtb) : Type 0 where
  pub idle : Idle s.h5
  pub given : AllGiven s.heap

-- Every call of `malloc` to come succeeds.
pub malloc-given :
    (heap : List Bool)
    → AllGiven heap
    → (heap' : List Bool) × (malloc heap ≡ (true, heap')) × AllGiven heap'
malloc-given [] a = ([], refl, tt)
malloc-given (b ∷ bs) a = (bs, rw a.0, a.1)

header_state-Idle : (h5 : H5) (rel : Bool) → Idle h5 → Idle (header_state h5 rel)
unfolding header_state
header_state-Idle h5 rel v = ground (arith, bit_and_7 ((h5.msgq_txseq + 1) % 256))

-- The acknowledgement that is still to be sent.
abbrev pub pending : H5 → ℕ
pending h5 = if is_set h5.is_txack_req then 1 else 0

-- With the one that is still to be sent, `n` packets are sent.
pub record DueBy (n : ℕ) (s : Rtb) : Type 0 where
  pub settled : Settled s
  pub count : n ≤ length s.sent + pending s.h5

-- `n` packets are sent.
pub record SentBy (n : ℕ) (s : Rtb) : Type 0 where
  pub settled : Settled s
  pub sent : n ≤ length s.sent

module _ (n : ℕ) where
  abbrev Due : Rtb → Type 0
  Due s = DueBy n s

  abbrev Sent : Rtb → Type 0
  Sent s = SentBy n s

  Sent-Due : (s : Rtb) → Sent s → Due s
  Sent-Due s v = record { settled = v.settled; count = omega (arith, v.sent) }

  pending_le : (h5 : H5) → pending h5 ≤ 1
  pending_le h5 = ground arith

  more_sent :
      (s : Rtb) (bytes : List ℕ) → Due s → n ≤ length (s.sent ++ (bytes ∷ [])) + pending s.h5
  more_sent s bytes v = omega (arith, v.count, length-append s.sent (bytes ∷ []))

  -- Where `malloc` succeeds, an acknowledgement is sent, which no longer is due.
  rtb_send_ack-Sent : (s : Rtb) → Due s → Returns Sent (rtb_send_ack s)
  unfolding rtb_send_ack skb_free
  rtb_send_ack-Sent s v =
      let (heap', e, a) = malloc-given s.heap v.settled.given in
      let (skb, p, c, b) =
        h5_prepare_pkt-frame s [] h5_ack_pkt false heap' (unfold pkt_rel in refl) e (omega arith) in
      rw p (record {
        settled = record { idle = header_state-Idle s.h5 false v.settled.idle; given = a };
        sent = omega (arith, v.count, pending_le s.h5, length-append s.sent (contents skb ∷ []));
      })

  Kept-Due : (s : Rtb) (r : Rtb × Skb) → Due s → Kept s r → Due r.0
  Kept-Due s r v k = record {
    settled = record {
      idle = subst Idle (sym k.h5_same) v.settled.idle;
      given = subst AllGiven (sym k.heap_same) v.settled.given;
    };
    count =
        omega
          (arith, v.count, ap pending k.h5_same, ap (λ (l : List (List ℕ)). length l) k.sent_same);
  }

  internal_config-Due :
      (s : Rtb) (skb : Skb) (a b : ℕ) → Near skb → Due s → Safe Due (internal_config s skb a b)
  unfolding internal_config
  internal_config-Due s skb a b near v =
      let z = v.settled in
      let written = λ (bytes : List ℕ). more_sent s bytes v in
      if_cases (Safe Due) (a == 0x01 && b == 0x7e) _ _
        (λ _. record {
          settled = record { idle = z.idle; given = z.given };
          count = written sync_resp_pkt;
        })
        λ _.
          if_cases (Safe Due) (a == 0x03 && b == 0xfc) _ _
            (λ _. record {
              settled = record { idle = z.idle; given = z.given };
              count = written conf_resp_pkt;
            })
            λ _.
              if_cases (Safe Due) (a == 0x04 && b == 0x7b) _ _
                (λ _.
                  if_cases (Safe Due) (ltb 2 skb.data_len) _ _
                    (λ _. read_then Due skb 2 _ (omega arith) λ x. record {
                      settled = record {
                        idle = record {
                          none_left = z.idle.none_left;
                          crc = z.idle.crc;
                          rxseq = z.idle.rxseq;
                          txseq = z.idle.txseq;
                        };
                        given = z.given;
                      };
                      count = v.count;
                    })
                    (λ _. record {
                      settled = record { idle = z.idle; given = z.given };
                      count = v.count;
                    }))
                (λ _.
                  Safe-weaken Sent Due (rtb_send_ack s)
                    (Returns-Safe Sent (rtb_send_ack s) (rtb_send_ack-Sent s v)) Sent-Due)

  internal_sync-Due : (s : Rtb) (a b : ℕ) → Due s → Due (internal_sync s a b)
  unfolding internal_sync
  internal_sync-Due s a b v =
      if_cases Due (a == 0x01 && b == 0x7e) _ _
        (λ _. record {
          settled = record { idle = v.settled.idle; given = v.settled.given };
          count = more_sent s sync_resp_pkt v;
        })
        λ _.
          if_cases Due (a == 0x02 && b == 0x7d) _ _
            (λ _. record {
              settled = record { idle = v.settled.idle; given = v.settled.given };
              count = v.count;
            })
            (λ _. v)

  internal_in-Due :
      (st : LinkState) (s : Rtb) (skb : Skb) → Near skb → Due s → Safe Due (internal_in st s skb)
  unfolding internal_in
  internal_in-Due sync s skb near v =
      read_then Due skb 0 _ (omega arith)
        λ a. read_then Due skb 1 _ (omega arith) λ b. internal_sync-Due s a b v
  internal_in-Due config s skb near v =
      read_then Due skb 0 _ (omega arith)
        λ a. read_then Due skb 1 _ (omega arith) λ b. internal_config-Due s skb a b near v
  internal_in-Due init s skb near v = v
  internal_in-Due patch s skb near v = v
  internal_in-Due hci_reset s skb near v = v
  internal_in-Due active s skb near v = v

  abbrev pub First : Rtb × Skb → Type 0
  First r = Due r.0

  pass_up-Due :
      (s : Rtb) (skb : Skb)
      → skb.max_len ≡ 0x1005
      → skb.off ≡ 0
      → Due s
      → Safe First (pass_up s skb)
  unfolding pass_up
  pass_up-Due s skb m o v = pull_then First skb 4 _ λ u mu ou.
      Safe-weaken (Kept s) First (hci_recv_frame s u)
        (hci_recv_frame-Kept s u (omega arith) (omega arith)) (λ r k. Kept-Due s r v k)

  keep_here-Due :
      (s : Rtb) (skb : Skb)
      → skb.max_len ≡ 0x1005
      → skb.off ≡ 0
      → Due s
      → Safe First (keep_here s skb)
  unfolding keep_here h5_handle_internal_rx
  keep_here-Due s skb m o v = pull_then First skb 4 _ λ u mu ou.
      Safe-bind Due First (internal_in s.link_estab_state s u) _
        (internal_in-Due s.link_estab_state s u (omega arith) v) (λ s' w. w)

  pub route-Due :
      (s : Rtb) (skb : Skb) (pkt_type : ℕ)
      → skb.max_len ≡ 0x1005
      → skb.off ≡ 0
      → Due s
      → Safe First (route s skb pkt_type)
  unfolding route
  route-Due s skb t m o v =
      if_cases (Safe First) (is_passed_up t) _ _ (λ _. pass_up-Due s skb m o v)
        λ _. if_cases (Safe First) (t == 0x0f) _ _ (λ _. keep_here-Due s skb m o v) (λ _. v)

  -- After the acknowledgement, if one was due.
  abbrev pub Paid : Rtb → Type 0
  Paid s = Sent s × (s.h5.is_txack_req ≡ 0)

  pub answer-Paid : (s : Rtb) → Due s → Returns Paid (answer s)
  unfolding answer
  answer-Paid s v =
      if_cases (Returns Paid) (is_set s.h5.is_txack_req) _ _
        (λ _. Returns-bind Sent Paid (rtb_send_ack s) _ (rtb_send_ack-Sent s v) (λ s' w. (
          record {
            settled = record {
              idle = record {
                none_left = w.settled.idle.none_left;
                crc = w.settled.idle.crc;
                rxseq = w.settled.idle.rxseq;
                txseq = w.settled.idle.txseq;
              };
              given = w.settled.given;
            };
            sent = w.sent;
          },
          refl,
        )))
        (λ e.
          (record { settled = v.settled; sent = ground (arith, e, v.count) }, ground (arith, e)))
