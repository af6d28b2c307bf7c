-- ===== src/Driver/Window/Received.antt =====
-- `h5_recv` of hci_rtk_h5.c and the transmit window.
use br_external.Prelude.{
  ℕ, zero, suc, ◌+◌, ◌*◌, ◌-◌, ◌≡◌, refl, sym, subst, arith, Bool-cases, if◌then◌else◌, ◌==◌, List,
  [], ◌∷◌, ◌++◌, append_assoc, length, take, inl, inr,
}
use br_external.Coex.Hci.{Hci}
use br_external.H5.State.{RxState, w4_pkt_delimiter, w4_pkt_start, w4_hdr, w4_data, w4_crc}
use br_external.Driver.State.{H5Struct, Pkt}
use br_external.Driver.Recv.{
  data_of, used, has_crc, put_byte, h5_unslip_one_byte, in_packet, in_hdr, in_data, in_crc,
  in_delimiter, round, rounds, h5_recv, bscp_get_crc,
}
use br_external.Driver.Queues.{h5_complete_rx_pkt}
use br_external.Driver.Window.{Window}
use br_external.Driver.Window.Complete.{Grown, kept, h5_complete_rx_pkt-Window}

-- The queues and the next number are the same.
abbrev Same : H5Struct → H5Struct → Type 0
Same g h =
    (g.unack ≡ h.unack) × (g.rel ≡ h.rel) × (g.unrel ≡ h.unrel) × (g.msgq_txseq ≡ h.msgq_txseq)

Same-Grown :
    (stream acked : List Pkt) (g h : H5Struct)
    → Same g h
    → Window stream acked h
    → Grown stream acked g
Same-Grown stream acked g h e w = kept stream acked g (record {
  split = ground (arith, e, w.split);
  number = ground (arith, e, w.number);
  small = ground (arith, e, w.small);
  rel_fit = rw e.1 w.rel_fit;
  unack_fit = rw e.0 w.unack_fit;
  unrel_fit = rw e.2 w.unrel_fit;
})

in_packet-Same : (byte : ℕ) (h5 : H5Struct) → Same (in_packet byte h5) h5
unfolding in_packet h5_unslip_one_byte put_byte
in_packet-Same byte h5 = ground arith

in_hdr-Same : (h5 : H5Struct) → Same (in_hdr h5) h5
unfolding in_hdr
in_hdr-Same h5 = ground arith

in_delimiter-Same : (byte : ℕ) (h5 : H5Struct) → Same (in_delimiter byte h5) h5
unfolding in_delimiter
in_delimiter-Same byte h5 = ground arith

used-Window :
    (stream acked : List Pkt) (h5 : H5Struct)
    → Window stream acked h5
    → Window stream acked (used h5)
used-Window stream acked h5 w = record {
  split = w.split;
  number = w.number;
  small = w.small;
  rel_fit = w.rel_fit;
  unack_fit = w.unack_fit;
  unrel_fit = w.unrel_fit;
}

-- A state that a complete packet leads to.
completed :
    (hci : Hci) (skb : List ℕ) (stream acked : List Pkt) (h5 h : H5Struct)
    → Window stream acked h5
    → h ≡ h5_complete_rx_pkt hci skb (used h5)
    → Grown stream acked h
completed hci skb stream acked h5 h w e =
    subst (λ x. Grown stream acked x) (sym e)
      (h5_complete_rx_pkt-Window hci skb stream acked (used h5) (used-Window stream acked h5 w))

in_data-Grown :
    (hci : Hci) (stream acked : List Pkt) (h5 : H5Struct)
    → Window stream acked h5
    → Grown stream acked (in_data hci h5)
unfolding in_data
in_data-Grown hci stream acked h5 w = elim (Bool-cases (has_crc (data_of h5.rx_skb))) [
  | inl crc ↦ Same-Grown stream acked (in_data hci h5) h5 (ground (arith, crc)) w
  | inr plain ↦
      completed hci (data_of h5.rx_skb) stream acked h5 (in_data hci h5) w (ground (arith, plain))
]

in_crc-Grown :
    (b : ℕ → ℕ) (hci : Hci) (stream acked : List Pkt) (h5 : H5Struct)
    → Window stream acked h5
    → Grown stream acked (in_crc b hci h5)
unfolding in_crc
in_crc-Grown b hci stream acked h5 w =
    let skb = data_of h5.rx_skb in
    elim (Bool-cases (b h5.message_crc == bscp_get_crc skb)) [
      | inl right ↦
          completed hci (take (length skb - 2) skb) stream acked h5 (in_crc b hci h5) w
            (ground (arith, right))
      | inr wrong ↦ Same-Grown stream acked (in_crc b hci h5) h5 (ground (arith, wrong)) w
    ]

at_state :
    (b : ℕ → ℕ) (hci : Hci) (byte : ℕ) (stream acked : List Pkt) (h5 : H5Struct) (state : RxState)
    → (h5.rx_count ≡ 0)
    → h5.rx_state ≡ state
    → Window stream acked h5
    → Grown stream acked (round b hci byte h5).2
unfolding round
at_state b hci byte stream acked h5 w4_hdr z e w =
    Same-Grown stream acked _ h5 (ground (arith, z, e, in_hdr-Same h5)) w
at_state b hci byte stream acked h5 w4_data z e w =
    let same : in_data hci h5 ≡ (round b hci byte h5).2 = ground (arith, z, e) in
    subst (λ x. Grown stream acked x) same (in_data-Grown hci stream acked h5 w)
at_state b hci byte stream acked h5 w4_crc z e w =
    let same : in_crc b hci h5 ≡ (round b hci byte h5).2 = ground (arith, z, e) in
    subst (λ x. Grown stream acked x) same (in_crc-Grown b hci stream acked h5 w)
at_state b hci byte stream acked h5 w4_pkt_delimiter z e w =
    Same-Grown stream acked _ h5 (ground (arith, z, e, in_delimiter-Same byte h5)) w
at_state b hci byte stream acked h5 w4_pkt_start z e w =
    Same-Grown stream acked _ h5 (ground (arith, z, e)) w

round-Grown :
    (b : ℕ → ℕ) (hci : Hci) (byte : ℕ) (stream acked : List Pkt) (h5 : H5Struct)
    → Window stream acked h5
    → Grown stream acked (round b hci byte h5).2
unfolding round
round-Grown b hci byte stream acked h5 w = elim (Bool-cases (h5.rx_count == 0)) [
  | inl z ↦ at_state b hci byte stream acked h5 h5.rx_state (ground (arith, z)) refl w
  | inr more ↦ Same-Grown stream acked _ h5 (ground (arith, more, in_packet-Same byte h5)) w
]

-- What is acknowledged in two steps.
pub Grown-trans :
    (stream acked : List Pkt) (h : H5Struct) (g : List Pkt)
    → Grown stream (acked ++ g) h
    → Grown stream acked h
Grown-trans stream acked h g (more, w) =
    (g ++ more, subst (λ a. Window stream a h) (append_assoc acked g more) w)

rounds-Grown :
    (fuel : ℕ) (b : ℕ → ℕ) (hci : Hci) (bytes : List ℕ) (stream acked : List Pkt) (h5 : H5Struct)
    → Window stream acked h5
    → Grown stream acked (rounds fuel b hci bytes h5).1
unfolding rounds
rounds-Grown fuel b hci [] stream acked h5 w = kept stream acked h5 w
rounds-Grown zero b hci (byte ∷ bytes) stream acked h5 w = kept stream acked h5 w
rounds-Grown (suc fuel) b hci (byte ∷ bytes) stream acked h5 w =
    let r = round b hci byte h5 in
    let one = round-Grown b hci byte stream acked h5 w in
    let next =
      rounds-Grown fuel b hci (if r.0 then bytes else byte ∷ bytes) stream (acked ++ one.0) r.2
        one.1 in
    elim (Bool-cases r.1) [
      | inl stop ↦ subst (λ x. Grown stream acked x) (ground (arith, stop)) one
      | inr on ↦
          subst (λ x. Grown stream acked x) (ground (arith, on))
            (Grown-trans stream acked _ one.0 next)
    ]

pub h5_recv-Grown :
    (b : ℕ → ℕ) (hci : Hci) (bytes : List ℕ) (stream acked : List Pkt) (h5 : H5Struct)
    → Window stream acked h5
    → Grown stream acked (h5_recv b hci bytes h5).1
unfolding h5_recv
h5_recv-Grown b hci bytes stream acked h5 w =
    rounds-Grown (4 * length bytes + 3) b hci bytes stream acked h5 w
