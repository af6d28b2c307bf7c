-- ===== src/H5/Recv/Packet.antt =====
-- The rounds of `h5_recv` in which a part of a packet is complete.
use br_external.Prelude.{
  ℕ, ◌+◌, ◌-◌, ◌*◌, ◌/◌, ◌≤◌, ◌<◌, ◌≡◌, refl, sym, subst, ◌∙◌, arith, bit_and, not, ◌&&◌, ◌==◌,
  get_or-All, Outcome, Safe, Safe-bind, Safe-weaken, if_cases,
}
use br_external.Prelude.Bits.{bit_and_7}
use br_external.H5.Frame.{h5_complete_rx_pkt}
use br_external.H5.Crc.{bit_rev16}
use br_external.H5.Frame.Safety.{read_then}
use br_external.H5.Frame.Due.{Settled}
use br_external.H5.Frame.Settled.{Waiting, h5_complete_rx_pkt-Waiting}
use br_external.H5.Prepare.{is_set, not8}
use br_external.H5.Skb.{Skb, live, skb_trim, contents}
use br_external.H5.Skb.Laws.{read_lem, skb_trim_same}
use br_external.H5.State.{Rtb, w4_pkt_delimiter, w4_data}
use br_external.H5.State.Valid.{IsByte, IsPacket, Holding, IsValid}
use br_external.H5.Recv.{
  Round, next, again, stop, is_patch, give_up, out_of_order, check_header, recv_hdr, recv_data,
  h5_get_crc, recv_crc,
}
use br_external.H5.Recv.Progress.{
  rank_data, Progress, drop_packet_lem, again_of, AnyCrc, h5_get_crc-Safe,
}

-- The states in which no byte of the packet is to come.
module _ (s : Rtb) (v : IsValid s) (skb : Skb) (e : s.h5.rx_skb ≡ live skb) where
  pub give_up-Safe : Safe (Progress 1) (give_up s)
  unfolding give_up
  give_up-Safe =
      let w = v.h5_valid in
      rw (drop_packet_lem s.h5 w4_pkt_delimiter skb e) (
        record {
          h5_valid = record { holding = refl; crc = w.crc; rxseq = w.rxseq; txseq = w.txseq };
          given = v.given;
        },
        omega arith,
      )

  pub out_of_order-Safe : (d0 : ℕ) → Safe (Progress 1) (out_of_order s d0)
  unfolding out_of_order
  out_of_order-Safe d0 =
      let w = v.h5_valid in
      rw (drop_packet_lem (record (s.h5) { is_txack_req = 1 }) w4_pkt_delimiter skb e) (
        record {
          h5_valid = record {
            holding = refl;
            crc = w.crc;
            rxseq =
                if_cases (λ n. n < 8) (is_patch s.link_estab_state && s.tx_index == s.total_num)
                  (bit_and d0 7) s.h5.rxseq_txack (λ _. omega (arith, bit_and_7 d0)) (λ _. w.rxseq);
            txseq = w.txseq;
          };
          given = v.given;
        },
        omega arith,
      )

  pub Progress-weaken : (m : Outcome Round) → Safe (Progress 1) m → Safe (Progress 2) m
  Progress-weaken m h = Safe-weaken (Progress 1) (Progress 2) m h λ r.
      elim r as (λ r. Progress 1 r → Progress 2 r) [
        | next t ↦ λ p. p
        | again t ↦ λ p. (p.0, omega (arith, p.1))
        | stop t ↦ λ p. p
      ]

  pub check_header-Safe :
      (d0 d1 d2 d3 : ℕ)
      → IsPacket skb
      → skb.data_len ≡ 4
      → IsByte d1
      → IsByte d2
      → Safe (Progress 2) (check_header s d0 d1 d2 d3)
  unfolding check_header
  check_header-Safe d0 d1 d2 d3 p len b1 b2 =
      let w = v.h5_valid in
      if_cases (Safe (Progress 2)) (not (not8 (d0 + d1 + d2) == d3)) _ _
        (λ _. Progress-weaken (give_up s) give_up-Safe)
        λ _.
          if_cases (Safe (Progress 2))
            (is_set (bit_and d0 0x80) && not (bit_and d0 0x07 == s.h5.rxseq_txack)) _ _
            (λ _. Progress-weaken (out_of_order s d0) (out_of_order-Safe d0))
            (λ _. (
              record {
                h5_valid = record {
                  holding =
                      subst (Holding w4_data (d1 / 16 + d2 * 16)) (sym e)
                        (p, omega arith, omega arith);
                  crc = w.crc;
                  rxseq = w.rxseq;
                  txseq = w.txseq;
                };
                given = v.given;
              },
              rank_data (d1 / 16 + d2 * 16),
            ))

  pub recv_hdr-Safe : IsPacket skb → skb.data_len ≡ 4 → Safe (Progress 2) (recv_hdr s)
  unfolding recv_hdr
  recv_hdr-Safe p len =
      let byte = λ (i : ℕ). get_or-All IsByte (contents skb) i 0 (omega arith) p.bytes in
      simp
        (
          e,
          read_lem skb 0 p.block (omega arith),
          read_lem skb 1 p.block (omega arith),
          read_lem skb 2 p.block (omega arith),
          read_lem skb 3 p.block (omega arith),
        )
        (check_header-Safe _ _ _ _ p len (byte 1) (byte 2))

  pub settled : s.h5.rx_count ≡ 0 → Settled s
  settled z = record {
    idle = record {
      none_left = z;
      crc = v.h5_valid.crc;
      rxseq = v.h5_valid.rxseq;
      txseq = v.h5_valid.txseq;
    };
    given = v.given;
  }

  pub recv_data-Safe :
      IsPacket skb
      → 4 ≤ skb.data_len
      → skb.data_len ≤ 0x1003
      → s.h5.rx_count ≡ 0
      → Safe (Progress 1) (recv_data s)
  unfolding recv_data
  recv_data-Safe p lo hi z =
      let w = v.h5_valid in
      simp e (
        read_then (Progress 1) skb 0 _ (omega (arith, p.base, p.size)) λ d0.
          if_cases (Safe (Progress 1)) (is_set (bit_and d0 0x40)) _ _
            (λ _. (
              record {
                h5_valid = record {
                  holding = (p, lo, omega arith, omega arith);
                  crc = w.crc;
                  rxseq = w.rxseq;
                  txseq = w.txseq;
                };
                given = v.given;
              },
              omega arith,
            ))
            (λ _.
              Safe-bind Waiting (Progress 1) (h5_complete_rx_pkt s) _
                (h5_complete_rx_pkt-Waiting s skb e p.size p.base (settled z)) again_of))

  pub recv_crc-Safe :
      IsPacket skb → 6 ≤ skb.data_len → s.h5.rx_count ≡ 0 → Safe (Progress 1) (recv_crc s)
  unfolding recv_crc
  recv_crc-Safe p lo z =
      let trimmed = skb_trim skb (skb.data_len - 2) in
      simp e (
        Safe-bind AnyCrc (Progress 1) (h5_get_crc skb) _ (h5_get_crc-Safe skb p lo) λ crc _.
          if_cases (Safe (Progress 1)) (not (bit_rev16 s.h5.message_crc == crc)) _ _
            (λ _. give_up-Safe)
            (λ _.
              Safe-bind Waiting (Progress 1)
                (h5_complete_rx_pkt (record s { h5 = record (s.h5) { rx_skb = live trimmed } })) _
                (h5_complete_rx_pkt-Waiting
                  (record s { h5 = record (s.h5) { rx_skb = live trimmed } }) trimmed refl
                  (sizes.0 ∙ p.size) (sizes.1 ∙ p.base)
                  (record {
                    idle = record {
                      none_left = z;
                      crc = v.h5_valid.crc;
                      rxseq = v.h5_valid.rxseq;
                      txseq = v.h5_valid.txseq;
                    };
                    given = v.given;
                  }))
                again_of))
    where
      sizes :
          ((skb_trim skb (skb.data_len - 2)).max_len ≡ skb.max_len)
          × ((skb_trim skb (skb.data_len - 2)).off ≡ skb.off)
      sizes = skb_trim_same skb (skb.data_len - 2)
