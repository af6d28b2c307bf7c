-- ===== src/H5/Recv/Payload.antt =====
-- `h5_recv` on the frame of a packet.
use br_external.Prelude.{
  ℕ, ◌+◌, ◌-◌, ◌*◌, ◌/◌, ◌≤◌, ◌≡◌, refl, sym, ap, ap₂, subst, ◌∙◌, arith, bit_and, Bool, true,
  false, List, [], ◌∷◌, ◌++◌, length, length-append, append_assoc, get_or,
}
use br_external.H5.Crc.{h5_crc_init}
use br_external.H5.Prepare.{is_set, not8}
use br_external.H5.Prepare.Encoding.{slip_all, crc_run}
use br_external.H5.Prepare.Header.{bit_of}
use br_external.H5.Skb.{Skb, live, contents, fresh, malloc}
use br_external.H5.Skb.Laws.{IsBlock, Appended, contents-fresh, fresh_sizes, fresh-IsBlock}
use br_external.H5.Slip.{slip_bytes, is_w4_crc}
use br_external.H5.State.{Rtb, RxState, w4_pkt_delimiter, w4_hdr, w4_data, noesc}
use br_external.H5.Recv.Steps.{Steps, Steps-trans, counting, Steps-bytes}
use br_external.H5.Recv.Phases.{
  Pending, started, step_delimiter, allocated, step_start, in_data, step_header,
}

pub Pending-append : (xs : List ℕ) {ys : List ℕ} → Pending ys → Pending (xs ++ ys)
Pending-append [] p = p
Pending-append (x ∷ xs) {ys} p = (x, xs ++ ys, refl)

-- The state with a packet in `skb`, all of whose bytes are in.
abbrev pub arrived : Rtb → List Bool → RxState → ℕ → Skb → Rtb
arrived s heap' st reg skb = record s {
  heap = heap';
  h5 = record (s.h5) {
    rx_state = st;
    rx_count = 0;
    rx_esc_state = noesc;
    message_crc = reg;
    rx_skb = live skb;
  };
}

-- A buffer of the receiver with these bytes.
pub record Received (skb : Skb) (bytes : List ℕ) : Type 0 where
  pub block : IsBlock skb
  pub holds : contents skb ≡ bytes
  pub size : skb.data_len ≡ length bytes
  pub base : skb.off ≡ 0
  pub whole : skb.max_len ≡ 0x1005

Received-Appended :
    (s t : Skb) (xs ys : List ℕ) → Received s xs → Appended s ys t → Received t (xs ++ ys)
Received-Appended s t xs ys r a = record {
  block = a.valid;
  holds = a.holds ∙ ap (λ l. l ++ ys) r.holds;
  size = omega (arith, a.longer, r.size, length-append xs ys);
  base = a.off_same ∙ r.base;
  whole = a.max_same ∙ r.whole;
}

fresh-Received : Received (fresh 0x1005) []
fresh-Received = record {
  block = fresh-IsBlock 0x1005 (omega arith);
  holds = contents-fresh 0x1005;
  size = (fresh_sizes 0x1005).1;
  base = (fresh_sizes 0x1005).0;
  whole = (fresh_sizes 0x1005).2;
}

-- A part of a packet, from a state that waits for just its bytes.
pub Steps-part :
    (s : Rtb) (heap' : List Bool) (st : RxState) (reg n d0 : ℕ) (crc : Bool) (skb : Skb)
    (held cs rest : List ℕ)
    → Received skb held
    → length held + length cs ≤ 0x1005
    → n ≡ length cs
    → get_or (held ++ cs) 0 0 ≡ d0
    → counting d0 st ≡ crc
    → (t : Skb) × Received t (held ++ cs)
      × Steps
          (length (slip_all cs))
          (record (arrived s heap' st reg skb) {
            h5 = record ((arrived s heap' st reg skb).h5) { rx_count = n };
          })
          (slip_all cs ++ rest)
          (arrived s heap' st (crc_run crc reg cs) t)
          rest
Steps-part s heap' st reg n d0 crc skb held cs rest r room e first counts =
    let s' : Rtb = record (arrived s heap' st reg skb) {
      h5 = record ((arrived s heap' st reg skb).h5) { rx_count = n };
    } in
    let first' : get_or (contents skb ++ cs) 0 0 ≡ d0 =
      ap (λ l. get_or (l ++ cs) 0 0) r.holds ∙ first in
    let (t, a, q) =
      Steps-bytes cs s' skb d0 rest
        (record { held = refl; block = r.block; plain = refl; count = omega arith })
        (omega (arith, r.size, r.base, r.whole)) (omega arith) first' in
    let done : n - length cs ≡ 0 = omega (arith, e) in
    (
      t,
      Received-Appended skb t held cs r a,
      subst (λ u. Steps (length (slip_all cs)) s' (slip_all cs ++ rest) u rest)
          (ap₂
            (λ k c. record (arrived s heap' st (crc_run c reg cs) t) {
              h5 = record ((arrived s heap' st (crc_run c reg cs) t).h5) { rx_count = k };
            })
            done counts)
          q,
    )

-- A packet that is in order, sent to a receiver that waits for a delimiter.
module _ (s : Rtb) (heap' : List Bool) (d0 d1 d2 : ℕ) (payload : List ℕ) (rel crc : Bool)
    (none_left : s.h5.rx_count ≡ 0) (waiting : s.h5.rx_state ≡ w4_pkt_delimiter)
    (given : malloc s.heap ≡ (true, heap')) (short : length payload ≤ 0xfff)
    (rel_bit : bit_and d0 0x80 ≡ bit_of rel * 128) (crc_bit : is_set (bit_and d0 0x40) ≡ crc)
    (in_order : rel ≡ true → bit_and d0 0x07 ≡ s.h5.rxseq_txack)
    (len_field : d1 / 16 + d2 * 16 ≡ length payload) where
  abbrev pub packet_header : List ℕ
  packet_header = d0 ∷ d1 ∷ d2 ∷ not8 (d0 + d1 + d2) ∷ []

  -- The register after the header, and after the payload.
  abbrev pub header_register : ℕ
  header_register = crc_run crc h5_crc_init packet_header

  abbrev pub payload_register : ℕ
  payload_register = crc_run crc header_register payload

  counts_in : (st : RxState) → is_w4_crc st ≡ false → counting d0 st ≡ crc
  counts_in st e = ground (arith, crc_bit, e)

  abbrev s2 : Rtb
  s2 = allocated (started s) heap'

  -- Delimiter, allocation and header.
  Steps-header :
      (rest : List ℕ)
      → Pending rest
      → (t : Skb) × Received t packet_header
        × Steps
            (length (slip_all packet_header) + 3)
            s
            (0xc0 ∷ (slip_all packet_header ++ rest))
            (in_data (arrived s heap' w4_hdr header_register t) (length payload))
            rest
  Steps-header rest p =
      let (t, r, q) =
        Steps-part s heap' w4_hdr h5_crc_init 4 d0 crc (fresh 0x1005) [] packet_header rest
          fresh-Received (omega arith) refl refl (counts_in w4_hdr refl) in
      let s3 = arrived s heap' w4_hdr header_register t in
      let split : slip_all packet_header ++ rest
          ≡ slip_bytes d0 ++ (slip_all (d1 ∷ d2 ∷ not8 (d0 + d1 + d2) ∷ []) ++ rest) =
        unfold slip_all in append_assoc (slip_bytes d0) _ rest in
      let n = length (slip_all packet_header) in
      let start : Steps 1 (started s) (slip_all packet_header ++ rest) s2
          (slip_all packet_header ++ rest) =
        subst (λ l. Steps 1 (started s) l s2 l) (sym split)
          (step_start (started s) heap' d0 _ none_left refl given) in
      let checked =
        step_header s3 t d0 d1 d2 (length payload) rel
          (record {
            held = refl;
            block = r.block;
            holds = r.holds;
            size = r.size;
            none_left = refl;
          })
          rel_bit in_order len_field rest refl p in
      (
        t,
        r,
        Steps-trans 1 (n + 2) (n + 3) s (started s) _ _ _ rest (omega arith)
            (step_delimiter s (slip_all packet_header ++ rest) none_left waiting)
            (Steps-trans 1 (n + 1) (n + 2) (started s) s2 _ _ _ rest (omega arith) start
              (Steps-trans n 1 (n + 1) s2 s3 _ _ rest rest (omega arith) q checked)),
      )

  -- And the payload.
  pub Steps-payload :
      (rest : List ℕ)
      → Pending rest
      → (t : Skb) × Received t (packet_header ++ payload)
        × Steps
            (length (slip_all packet_header) + length (slip_all payload) + 3)
            s
            (0xc0 ∷ (slip_all packet_header ++ (slip_all payload ++ rest)))
            (arrived s heap' w4_data payload_register t)
            rest
  Steps-payload rest p =
      let (t, r, q) =
        Steps-header (slip_all payload ++ rest) (Pending-append (slip_all payload) p) in
      let (u, r', q') =
        Steps-part s heap' w4_data header_register (length payload) d0 crc t packet_header payload
          rest r (omega arith) refl refl (counts_in w4_data refl) in
      (
        u,
        r',
        Steps-trans (length (slip_all packet_header) + 3) (length (slip_all payload)) _ s _ _ _ _
            rest (omega arith) q q',
      )
