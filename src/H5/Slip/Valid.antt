-- ===== src/H5/Slip/Valid.antt =====
-- Decoding a byte keeps the receiver's invariant.
use br_external.Prelude.{
  ℕ, ◌<◌, ◌^◌, refl, subst, arith, ◌==◌, List, Returns, Returns-bind, if_cases,
}
use br_external.H5.Crc.Reversal.{h5_crc_update-lt}
use br_external.H5.Skb.{skb_free, contents}
use br_external.H5.Slip.{unslip_put, unslip_escaped, unslip_invalid, unslip_in, h5_unslip_one_byte}
use br_external.H5.Slip.Laws.{unslip_put-received, counted}
use br_external.H5.State.{H5, RxState, RxEscState, noesc, esc}
use br_external.H5.State.Valid.{IsByte, Holding, Valid, live_of, Holding-appended}

counted-lt :
    (st : RxState) (held : List ℕ) (crc byte : ℕ) → crc < 2 ^ 16 → counted st held crc byte < 2 ^ 16
counted-lt st held crc byte h = ground (arith, h5_crc_update-lt crc byte)

module _ (h5 : H5) (v : Valid h5) (more : 0 < h5.rx_count) where
  unslip_put-Valid : (byte : ℕ) → IsByte byte → Returns Valid (unslip_put h5 byte)
  unslip_put-Valid byte b =
      let (s, held, p, room) = live_of h5.rx_state h5.rx_count h5.rx_skb v.holding more in
      let h = subst (Holding h5.rx_state h5.rx_count) held v.holding in
      rw
        (unslip_put-received h5 s byte held p.block (omega (arith, p.base, p.size)) more
          (omega arith))
        (record {
          holding = Holding-appended h5.rx_state h5.rx_count s byte h more b;
          crc = counted-lt h5.rx_state (contents s) h5.message_crc byte v.crc;
          rxseq = v.rxseq;
          txseq = v.txseq;
        })

  unslip_escaped-Valid : (byte : ℕ) → IsByte byte → Returns Valid (unslip_escaped h5 byte)
  unfolding unslip_escaped
  unslip_escaped-Valid byte b =
      Returns-bind Valid Valid (unslip_put h5 byte) _ (unslip_put-Valid byte b)
        (λ h5' w. record { holding = w.holding; crc = w.crc; rxseq = w.rxseq; txseq = w.txseq })

  unslip_invalid-Valid : Returns Valid (unslip_invalid h5)
  unfolding unslip_invalid skb_free
  unslip_invalid-Valid =
      let (s, held, p, room) = live_of h5.rx_state h5.rx_count h5.rx_skb v.holding more in
      rw held (record { holding = refl; crc = v.crc; rxseq = v.rxseq; txseq = v.txseq })

  -- `e` is the escape state.
  unslip_in-Valid : (e : RxEscState) (byte : ℕ) → IsByte byte → Returns Valid (unslip_in e h5 byte)
  unfolding unslip_in
  unslip_in-Valid noesc byte b =
      if_cases (Returns Valid) (byte == 0xdb) _ _
        (λ _. record { holding = v.holding; crc = v.crc; rxseq = v.rxseq; txseq = v.txseq })
        (λ _. unslip_put-Valid byte b)
  unslip_in-Valid esc byte b =
      if_cases (Returns Valid) (byte == 0xdc) _ _ (λ _. unslip_escaped-Valid 0xc0 (omega arith))
        λ _.
          if_cases (Returns Valid) (byte == 0xdd) _ _ (λ _. unslip_escaped-Valid 0xdb (omega arith))
            λ _.
              if_cases (Returns Valid) (byte == 0xde) _ _
                (λ _. unslip_escaped-Valid 0x11 (omega arith))
                λ _.
                  if_cases (Returns Valid) (byte == 0xdf) _ _
                    (λ _. unslip_escaped-Valid 0x13 (omega arith)) λ _. unslip_invalid-Valid

  -- In a packet with a byte to come, any byte, also one that makes an unknown escape pair, is decoded
  -- with the buffer in hand: nothing faults or exits, and the receiver's invariant holds again.
  pub h5_unslip_one_byte-Valid :
      (byte : ℕ) → IsByte byte → Returns Valid (h5_unslip_one_byte h5 byte)
  unfolding h5_unslip_one_byte
  h5_unslip_one_byte-Valid byte b = unslip_in-Valid h5.rx_esc_state byte b
