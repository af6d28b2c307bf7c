-- ===== src/H5/Recv/Delivery.antt =====
-- `h5_recv` on the whole frame of a packet, without and with a CRC.
use br_external.Prelude.{
  ℕ, ◌+◌, ◌-◌, ◌*◌, ◌/◌, ◌≤◌, ◌<◌, ◌^◌, ◌≡◌, refl, sym, ap, subst, ◌∙◌, arith, bit_and, Bool, true,
  false, List, [], ◌∷◌, ◌++◌, length, length-append, Outcome, ok, ◌>>=◌, Safe,
}
use br_external.H5.Crc.{h5_crc_init}
use br_external.H5.Frame.{h5_complete_rx_pkt}
use br_external.H5.Frame.Settled.{Waiting, h5_complete_rx_pkt-Waiting}
use br_external.H5.Prepare.{is_set, not8, crc_bytes}
use br_external.H5.Prepare.Encoding.{slip_all, crc_run, crc_field, body, frame, frame_parts}
use br_external.H5.Prepare.Header.{bit_of}
use br_external.H5.Skb.{Skb, malloc, skb_trim}
use br_external.H5.Skb.Laws.{skb_trim-IsBlock, skb_trim_same}
use br_external.H5.State.{Rtb, RxState, w4_pkt_delimiter, w4_data, w4_crc}
use br_external.H5.State.Valid.{IsValid, AllGiven}
use br_external.H5.Recv.{h5_recv, round, again}
use br_external.H5.Recv.Steps.{Steps, Steps-trans, step_again}
use br_external.H5.Recv.Phases.{started}
use br_external.H5.Recv.Arrival.{
  closing, crc_run-lt, crc_run_off, data_without_crc, data_with_crc, trimmed, crc_round,
}
use br_external.H5.Recv.Payload.{Pending-append, arrived, Received, Steps-part, Steps-payload}

-- The state in which a packet is complete.
abbrev pub last_state : Bool → RxState
last_state true = w4_crc
last_state false = w4_data

trim_size : (skb : Skb) (n : ℕ) → n < skb.data_len → (skb_trim skb n).data_len ≡ n
unfolding skb_trim
trim_size skb n h = ground arith

-- From a run over all but the last delimiter to the result of `h5_recv`.
run_frame :
    (s t : Rtb) (bytes : List ℕ) (n : ℕ) (m : Outcome Rtb)
    → Steps n s bytes t (0xc0 ∷ [])
    → n ≤ 3 * length bytes
    → round t 0xc0 ≡ (m >>= λ u. ok (again u))
    → Safe Waiting m
    → h5_recv s bytes ≡ (m >>= λ u. ok (started u))
unfolding h5_recv
run_frame s t bytes n m q less e w =
    let spare = 3 * length bytes - n in
    q (3 + spare) (3 * length bytes + 3) (omega arith) ∙ closing spare (3 + spare) t m refl e w

module _ (s : Rtb) (heap' : List Bool) (d0 d1 d2 : ℕ) (payload : List ℕ) (rel : Bool)
    (valid : IsValid s) (heap_given : AllGiven heap') (none_left : s.h5.rx_count ≡ 0)
    (waiting : s.h5.rx_state ≡ w4_pkt_delimiter) (given : malloc s.heap ≡ (true, heap'))
    (short : length payload ≤ 0xfff) (rel_bit : bit_and d0 0x80 ≡ bit_of rel * 128)
    (in_order : rel ≡ true → bit_and d0 0x07 ≡ s.h5.rxseq_txack)
    (len_field : d1 / 16 + d2 * 16 ≡ length payload) where
  abbrev pub hdr : List ℕ
  hdr = d0 ∷ d1 ∷ d2 ∷ not8 (d0 + d1 + d2) ∷ []

  abbrev pub register : Bool → ℕ
  register crc = crc_run crc (crc_run crc h5_crc_init hdr) payload

  register-lt : (crc : Bool) → register crc < 2 ^ 16
  register-lt crc = crc_run-lt crc payload _ (crc_run-lt crc hdr h5_crc_init (omega arith))

  complete-Waiting :
      (st : RxState) (reg : ℕ) (t : Skb)
      → reg < 2 ^ 16
      → Received t (hdr ++ payload)
      → Safe Waiting (h5_complete_rx_pkt (arrived s heap' st reg t))
  complete-Waiting st reg t small r =
      h5_complete_rx_pkt-Waiting (arrived s heap' st reg t) t refl r.whole r.base (record {
        idle = record {
          none_left = refl;
          crc = small;
          rxseq = valid.h5_valid.rxseq;
          txseq = valid.h5_valid.txseq;
        };
        given = heap_given;
      })

  abbrev pub Delivered : Bool → Type 0
  Delivered crc =
      (t : Skb) × Received t (hdr ++ payload)
      × (h5_recv s (frame (body crc hdr payload)) ≡ (
          h5_complete_rx_pkt (arrived s heap' (last_state crc) (register crc) t) >>= λ u.
          ok (started u)))

  -- The frame in parts, `last` being the escaped CRC field.
  abbrev parts : List ℕ → List ℕ
  parts last = 0xc0 ∷ (slip_all hdr ++ (slip_all payload ++ (last ++ 0xc0 ∷ [])))

  length-parts :
      (last : List ℕ)
      → length (parts last) ≡ length (slip_all hdr) + length (slip_all payload) + length last + 2
  length-parts last = omega (
    arith,
    length-append (slip_all hdr) (slip_all payload ++ (last ++ 0xc0 ∷ [])),
    length-append (slip_all payload) (last ++ 0xc0 ∷ []),
    length-append last (0xc0 ∷ []),
  )

  pub Delivered-plain : is_set (bit_and d0 0x40) ≡ false → Delivered false
  Delivered-plain off =
      let (t, r, q) =
        Steps-payload s heap' d0 d1 d2 payload rel false none_left waiting given short rel_bit off
          in_order len_field (0xc0 ∷ []) (0xc0, [], refl) in
      let u = arrived s heap' w4_data (register false) t in
      let whole : frame (body false hdr payload) ≡ parts [] =
        frame_parts false hdr payload ∙ (unfold crc_field slip_all in refl) in
      (
        t,
        r,
        ap (h5_recv s) whole
            ∙ run_frame s u (parts []) _ (h5_complete_rx_pkt u) q (omega (arith, length-parts []))
                (data_without_crc u t d0 (d1 ∷ d2 ∷ not8 (d0 + d1 + d2) ∷ payload)
                  (record {
                    held = refl;
                    block = r.block;
                    holds = r.holds;
                    size = r.size;
                    none_left = refl;
                  })
                  refl 0xc0 off)
                (complete-Waiting w4_data (register false) t (register-lt false) r),
      )

  abbrev check_bytes : List ℕ
  check_bytes = crc_bytes (register true)

  abbrev with_crc : RxState → ℕ → Skb → Rtb
  with_crc st n t = record (arrived s heap' st (register true) t) {
    h5 = record ((arrived s heap' st (register true) t).h5) { rx_count = n };
  }

  -- From the last byte of the payload to the last byte of the CRC.
  Steps-crc :
      (t : Skb)
      → is_set (bit_and d0 0x40) ≡ true
      → Received t (hdr ++ payload)
      → (v : Skb) × Received v ((hdr ++ payload) ++ check_bytes)
        × Steps
            (length (slip_all check_bytes) + 1)
            (with_crc w4_data 0 t)
            (slip_all check_bytes ++ 0xc0 ∷ [])
            (with_crc w4_crc 0 v)
            (0xc0 ∷ [])
  Steps-crc t on r =
      let last = slip_all check_bytes in
      let (b, bs, e) = Pending-append last {ys = 0xc0 ∷ []} (0xc0, [], refl) in
      let (v, rv, q) =
        Steps-part s heap' w4_crc (register true) 2 d0 false t (hdr ++ payload) check_bytes
          (0xc0 ∷ []) r (omega arith) refl refl (ground arith) in
      let more : Steps 1 (with_crc w4_data 0 t) (last ++ 0xc0 ∷ []) (with_crc w4_crc 2 t)
          (last ++ 0xc0 ∷ []) =
        subst (λ l. Steps 1 (with_crc w4_data 0 t) l (with_crc w4_crc 2 t) l) (sym e)
          (step_again (with_crc w4_data 0 t) (with_crc w4_crc 2 t) b bs (
            data_with_crc (with_crc w4_data 0 t) t d0 (d1 ∷ d2 ∷ not8 (d0 + d1 + d2) ∷ payload)
              (record {
                held = refl;
                block = r.block;
                holds = r.holds;
                size = r.size;
                none_left = refl;
              })
              refl b on)) in
      (
        v,
        rv,
        Steps-trans 1 (length last) (length last + 1) _ _ _ _ _ _ (omega arith) more (
            subst
              (λ g.
                Steps (length last) (with_crc w4_crc 2 t) (last ++ 0xc0 ∷ [])
                  (arrived s heap' w4_crc g v) (0xc0 ∷ []))
              (crc_run_off (register true) check_bytes) q),
      )

  trimmed-Received :
      (v : Skb)
      → Received v ((hdr ++ payload) ++ check_bytes)
      → Received (skb_trim v (v.data_len - 2)) (hdr ++ payload)
  trimmed-Received v r =
      let two : v.data_len ≡ length (hdr ++ payload) + 2 =
        r.size ∙ length-append (hdr ++ payload) check_bytes in
      let same = skb_trim_same v (v.data_len - 2) in
      record {
        block = skb_trim-IsBlock v (v.data_len - 2) r.block;
        holds =
            trimmed (with_crc w4_crc 0 v) v (hdr ++ payload)
              (record {
                held = refl;
                block = r.block;
                holds = r.holds;
                size = r.size;
                none_left = refl;
              })
              (register-lt true) refl 0xc0;
        size = trim_size v (v.data_len - 2) (omega arith) ∙ omega arith;
        base = same.1 ∙ r.base;
        whole = same.0 ∙ r.whole;
      }

  pub Delivered-crc : is_set (bit_and d0 0x40) ≡ true → Delivered true
  Delivered-crc on =
      let last = slip_all check_bytes in
      let (t, r, q) =
        Steps-payload s heap' d0 d1 d2 payload rel true none_left waiting given short rel_bit on
          in_order len_field (last ++ 0xc0 ∷ []) (Pending-append last (0xc0, [], refl)) in
      let (v, rv, q') = Steps-crc t on r in
      let w = with_crc w4_crc 0 v in
      let x = skb_trim v (v.data_len - 2) in
      let rx = trimmed-Received v rv in
      let whole : frame (body true hdr payload) ≡ parts last =
        frame_parts true hdr payload ∙ (unfold crc_field in refl) in
      let n = length (slip_all hdr) + length (slip_all payload) + 3 in
      (
        x,
        rx,
        ap (h5_recv s) whole
            ∙ run_frame s w (parts last) (n + (length last + 1))
                (h5_complete_rx_pkt (with_crc w4_crc 0 x))
                (Steps-trans n (length last + 1) _ s _ _ _ _ _ refl q q')
                (omega (arith, length-parts last))
                (crc_round w v (hdr ++ payload)
                  (record {
                    held = refl;
                    block = rv.block;
                    holds = rv.holds;
                    size = rv.size;
                    none_left = refl;
                  })
                  (register-lt true) refl 0xc0)
                (complete-Waiting w4_crc (register true) x (register-lt true) rx),
      )

  pub Delivered-all : (crc : Bool) → is_set (bit_and d0 0x40) ≡ crc → Delivered crc
  Delivered-all true on = Delivered-crc on
  Delivered-all false off = Delivered-plain off
