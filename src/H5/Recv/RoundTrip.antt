-- ===== src/H5/Recv/RoundTrip.antt =====
-- What `h5_prepare_pkt` sends, given to `h5_recv`.
use br_external.Prelude.{
  ℕ, ◌*◌, ◌≤◌, ◌<◌, ◌≡◌, refl, sym, ap, subst, ◌∙◌, arith, bit_and, Bool, true, false, List, ◌++◌,
  length, some, ok, ◌>>=◌,
}
use br_external.H5.Crc.{h5_crc_init}
use br_external.H5.Frame.{h5_complete_rx_pkt}
use br_external.H5.Frame.Due.{malloc-given}
use br_external.H5.Prepare.{is_set, header, header0, header_state, h5_prepare_pkt, pkt_rel}
use br_external.H5.Prepare.Encoding.{crc_run, body, frame, h5_prepare_pkt-frame}
use br_external.H5.Prepare.Header.{bit_of, FirstByte, header0-FirstByte, header_byte, header_length}
use br_external.H5.Skb.{Skb, live, contents, malloc}
use br_external.H5.State.{Rtb, w4_pkt_delimiter}
use br_external.H5.State.Valid.{IsValid}
use br_external.H5.Recv.{h5_recv}
use br_external.H5.Recv.Phases.{started}
use br_external.H5.Recv.Arrival.{Waiting-count}
use br_external.H5.Recv.Payload.{arrived, Received}
use br_external.H5.Recv.Delivery.{last_state, Delivered-all}

known-lt : (pkt_type : ℕ) (rel : Bool) → pkt_rel pkt_type ≡ some rel → pkt_type < 16
unfolding pkt_rel
known-lt t rel e = ground arith

flag_of : (crc : Bool) → is_set (bit_of crc * 64) ≡ crc
flag_of true = refl
flag_of false = refl

-- The sender `tx` and the receiver `rx`, whose expected number is the one that `tx` gives next.
module _ (tx rx : Rtb) (payload : List ℕ) (pkt_type : ℕ) (rel : Bool) (heap' : List Bool)
    (known : pkt_rel pkt_type ≡ some rel) (given : malloc tx.heap ≡ (true, heap'))
    (short : length payload ≤ 0xfff) (ack3 : tx.h5.rxseq_txack < 8) (seq3 : tx.h5.msgq_txseq < 8)
    (valid : IsValid rx) (waiting : rx.h5.rx_state ≡ w4_pkt_delimiter)
    (in_order : rel ≡ true → tx.h5.msgq_txseq ≡ rx.h5.rxseq_txack) where
  abbrev crc : Bool
  crc = is_set tx.h5.use_crc

  abbrev sent_header : List ℕ
  sent_header = header tx.h5 rel (length payload) pkt_type

  abbrev Taken : List ℕ → Type 0
  Taken bytes =
      (t : Skb) × (heap'' : List Bool) × Received t (sent_header ++ payload)
      × (h5_recv rx bytes ≡ (
          h5_complete_rx_pkt (
            arrived rx heap'' (last_state crc)
              (crc_run crc (crc_run crc h5_crc_init sent_header) payload) t)
          >>= λ u. ok (started u)))

  first_byte : FirstByte tx.h5 rel (header0 tx.h5 rel)
  first_byte = header0-FirstByte tx.h5 rel ack3 seq3

  crc_flag : is_set (bit_and (header0 tx.h5 rel) 0x40) ≡ crc
  crc_flag = rw first_byte.crc_bit (flag_of crc)

  seq_same : rel ≡ true → bit_and (header0 tx.h5 rel) 0x07 ≡ rx.h5.rxseq_txack
  seq_same e = first_byte.seq ∙ ap (λ r. bit_of r * tx.h5.msgq_txseq) e ∙ omega (arith, in_order e)

  taken : Taken (frame (body crc sent_header payload))
  unfolding header
  taken =
      let (heap'', e, g) = malloc-given rx.heap valid.given in
      let (t, r, q) =
        Delivered-all rx heap'' (header0 tx.h5 rel)
          (header_byte 1 tx.h5 rel (length payload) pkt_type)
          (header_byte 2 tx.h5 rel (length payload) pkt_type) payload rel valid g
          (Waiting-count rx (valid, waiting)) waiting e short first_byte.reliable_bit seq_same
          (header_length tx.h5 rel (length payload) pkt_type short (known-lt pkt_type rel known)).0
          crc crc_flag in
      (t, heap'', r, q)

  -- Where the sender's `malloc` gives its buffer, `h5_prepare_pkt` returns a buffer; a receiver in a
  -- valid state that waits for a delimiter takes the bytes of that buffer apart again: after them
  -- `h5_recv` has made the call of `h5_complete_rx_pkt` with just the header and the payload that
  -- were sent in its buffer, without the CRC, and it has taken the closing delimiter for the start
  -- of the next packet. A reliable packet has to bear the number that the receiver expects, and the
  -- payload is of 4095 bytes at most.
  pub h5_recv-h5_prepare_pkt :
      (p : Skb) × (h5_prepare_pkt tx payload pkt_type
        ≡ ok (live p, record tx { h5 = header_state tx.h5 rel; heap = heap' }))
      × Taken (contents p)
  h5_recv-h5_prepare_pkt =
      let (p, e, c, b) = h5_prepare_pkt-frame tx payload pkt_type rel heap' known given short in
      (p, e, subst Taken (sym c) taken)
