-- ===== src/H5/Recv/Phases.antt =====
-- A packet of `h5_prepare_pkt` on its way through `h5_recv`, part by part.
use br_external.Prelude.{
  ℕ, ◌+◌, ◌*◌, ◌/◌, ◌<◌, ◌≡◌, ◌≢◌, refl, ap, ◌∙◌, arith, bit_and, Bool, true, false, not, ◌&&◌,
  ◌==◌, ==_refl, inl, inr, List, [], ◌∷◌, ◌++◌, length, get_or, Outcome, ok, ◌>>=◌,
}
use br_external.H5.Crc.{h5_crc_init}
use br_external.H5.Prepare.{is_set, not8}
use br_external.H5.Prepare.Header.{bit_of}
use br_external.H5.Skb.{Skb, live, contents, fresh, skb_alloc, malloc, read, deref}
use br_external.H5.Skb.Laws.{IsBlock, read_lem}
use br_external.H5.Slip.{slip_bytes}
use br_external.H5.Slip.Laws.{slip_form}
use br_external.H5.State.{Rtb, w4_pkt_delimiter, w4_pkt_start, w4_hdr, w4_data, noesc}
use br_external.H5.Recv.{
  Round, again, check_header, recv_hdr, recv_delimiter, alloc_packet, recv_start, recv_in, round,
}
use br_external.H5.Recv.Steps.{Steps, step_next, step_again}

-- A byte to come.
abbrev pub Pending : List ℕ → Type 0
Pending xs = (b : ℕ) × (bs : List ℕ) × (xs ≡ b ∷ bs)

pub Pending-delimiter : (xs ys : List ℕ) (b : ℕ) → Pending (xs ++ b ∷ ys)
Pending-delimiter [] ys b = (b, ys, refl)
Pending-delimiter (x ∷ xs) ys b = (x, xs ++ b ∷ ys, refl)

-- The first byte of an escaped byte is no delimiter.
slip_first :
    (c : ℕ) (rest : List ℕ) → (b : ℕ) × (bs : List ℕ) × (slip_bytes c ++ rest ≡ b ∷ bs) × (b ≢ 0xc0)
slip_first c rest = elim (slip_form c) [
  | inl p ↦ (c, rest, ap (λ l. l ++ rest) p.0, p.1)
  | inr (inl p) ↦ (0xdb, 0xdc ∷ rest, ap (λ l. l ++ rest) p.1, omega arith)
  | inr (inr (inl p)) ↦ (0xdb, 0xdd ∷ rest, ap (λ l. l ++ rest) p.1, omega arith)
  | inr (inr (inr (inl p))) ↦ (0xdb, 0xde ∷ rest, ap (λ l. l ++ rest) p.1, omega arith)
  | inr (inr (inr (inr p))) ↦ (0xdb, 0xdf ∷ rest, ap (λ l. l ++ rest) p.1, omega arith)
]

pub round_idle :
    (s : Rtb) (byte : ℕ) → s.h5.rx_count ≡ 0 → round s byte ≡ recv_in s.h5.rx_state s byte
unfolding round
round_idle s byte z = ground arith

-- The state once the delimiter is in.
abbrev pub started : Rtb → Rtb
started s = record s { h5 = record (s.h5) { rx_state = w4_pkt_start } }

pub step_delimiter :
    (s : Rtb) (rest : List ℕ)
    → s.h5.rx_count ≡ 0
    → s.h5.rx_state ≡ w4_pkt_delimiter
    → Steps 1 s (0xc0 ∷ rest) (started s) rest
step_delimiter s rest z st =
    step_next s (started s) 0xc0 rest
      (round_idle s 0xc0 z ∙ ap (λ x. recv_in x s 0xc0) st ∙ unfold recv_in recv_delimiter in refl)

-- The state once the buffer is there.
abbrev pub allocated : Rtb → List Bool → Rtb
allocated s heap' = record s {
  heap = heap';
  h5 = record (s.h5) {
    rx_state = w4_hdr;
    rx_count = 4;
    rx_esc_state = noesc;
    message_crc = h5_crc_init;
    rx_skb = live (fresh 0x1005);
  };
}

start_round :
    (s : Rtb) (heap' : List Bool) (b : ℕ)
    → malloc s.heap ≡ (true, heap')
    → b ≢ 0xc0
    → recv_start s b ≡ ok (again (allocated s heap'))
unfolding recv_start skb_alloc alloc_packet
start_round s heap' b e ne = let other : (b == 0xc0) ≡ false = ground arith in rw (other, e)

pub step_start :
    (s : Rtb) (heap' : List Bool) (c : ℕ) (rest : List ℕ)
    → s.h5.rx_count ≡ 0
    → s.h5.rx_state ≡ w4_pkt_start
    → malloc s.heap ≡ (true, heap')
    → Steps 1 s (slip_bytes c ++ rest) (allocated s heap') (slip_bytes c ++ rest)
step_start s heap' c rest z st given =
    let (b, bs, e, ne) = slip_first c rest in
    rw e (
      step_again s (allocated s heap') b bs (
        round_idle s b z
        ∙ ap (λ x. recv_in x s b) st
        ∙ (unfold recv_in in start_round s heap' b given ne)))

-- The receiver holds a buffer with these bytes and waits for no byte of this part.
pub record HasBytes (s : Rtb) (skb : Skb) (bytes : List ℕ) : Type 0 where
  pub held : s.h5.rx_skb ≡ live skb
  pub block : IsBlock skb
  pub holds : contents skb ≡ bytes
  pub size : skb.data_len ≡ length bytes
  pub none_left : s.h5.rx_count ≡ 0

-- The state once the header is checked.
abbrev pub in_data : Rtb → ℕ → Rtb
in_data s len = record s { h5 = record (s.h5) { rx_state = w4_data; rx_count = len } }

-- `recv_hdr` behind the pointer.
abbrev header_of : Rtb → Skb → Outcome Round
header_of s skb = do
  d0 ← read skb 0
  d1 ← read skb 1
  d2 ← read skb 2
  d3 ← read skb 3
  check_header s d0 d1 d2 d3

-- The header of a packet that is in order.
module _ (s : Rtb) (skb : Skb) (d0 d1 d2 len : ℕ) (rel : Bool)
    (h : HasBytes s skb (d0 ∷ d1 ∷ d2 ∷ not8 (d0 + d1 + d2) ∷ []))
    (rel_bit : bit_and d0 0x80 ≡ bit_of rel * 128)
    (in_order : rel ≡ true → bit_and d0 0x07 ≡ s.h5.rxseq_txack)
    (len_field : d1 / 16 + d2 * 16 ≡ len) where
  header_passes : check_header s d0 d1 d2 (not8 (d0 + d1 + d2)) ≡ ok (again (in_data s len))
  unfolding check_header
  header_passes =
      let whole : (not8 (d0 + d1 + d2) == not8 (d0 + d1 + d2)) ≡ true =
        ==_refl (not8 (d0 + d1 + d2)) in
      let expected : (is_set (bit_and d0 0x80) && not (bit_and d0 0x07 == s.h5.rxseq_txack))
          ≡ false =
        ground arith in
      rw (whole, expected, len_field)

  read_at : (i : ℕ) → i < 4 → read skb i ≡ ok (get_or (d0 ∷ d1 ∷ d2 ∷ not8 (d0 + d1 + d2) ∷ []) i 0)
  read_at i less =
      read_lem skb i h.block (omega (arith, h.size)) ∙ ap (λ l. ok (get_or l i 0)) h.holds

  reads : recv_hdr s ≡ ok (again (in_data s len))
  unfolding recv_hdr
  reads =
      ap (λ p. deref p >>= header_of s) h.held
      ∙ rw
          (
            read_at 0 (omega arith),
            read_at 1 (omega arith),
            read_at 2 (omega arith),
            read_at 3 (omega arith),
          )
          header_passes

  pub step_header :
      (rest : List ℕ) → s.h5.rx_state ≡ w4_hdr → Pending rest → Steps 1 s rest (in_data s len) rest
  step_header rest st p =
      let (b, bs, e) = p in
      rw e (
        step_again s (in_data s len) b bs
          (round_idle s b h.none_left ∙ ap (λ x. recv_in x s b) st ∙ (unfold recv_in in reads)))
