-- ===== src/Driver/Recv/Ends.antt =====
-- The loop of `h5_recv` in hci_rtk_h5.c ends.
use br_external.Prelude.{
  ℕ, zero, suc, ◌+◌, ◌*◌, ◌≤◌, ◌<◌, ◌-◌, ◌/◌, ◌≡◌, refl, ap, ◌∙◌, arith, Bool, Bool-cases, ◌⊎◌, inl,
  inr, true, false, List, [], ◌∷◌, length, take, get_or, if◌then◌else◌, ◌==◌,
}
use br_external.Coex.Hci.{Hci}
use br_external.H5.State.{RxState, w4_pkt_delimiter, w4_pkt_start, w4_hdr, w4_data, w4_crc}
use br_external.Coex.State.{alloc}
use br_external.Driver.State.{H5Struct}
use br_external.Driver.Queues.{h5_complete_rx_pkt}
use br_external.Driver.Recv.{
  round, rounds, h5_recv, in_packet, in_hdr, in_data, in_crc, in_delimiter, data_of, used,
}

-- How many rounds may come before a byte is used up.
abbrev rank : RxState → ℕ
rank w4_pkt_delimiter = 0
rank w4_pkt_start = 1
rank w4_data = 2
rank w4_crc = 2
rank w4_hdr = 3

abbrev weight : ℕ → RxState → ℕ
weight zero state = rank state
weight (suc n) state = 0

weight-le : (n : ℕ) (state : RxState) → weight n state ≤ 3
weight-le n state = grind arith

h5_complete_rx_pkt-state :
    (hci : Hci) (skb : List ℕ) (h5 : H5Struct)
    → (h5_complete_rx_pkt hci skb h5).rx_state ≡ w4_pkt_delimiter
unfolding h5_complete_rx_pkt
h5_complete_rx_pkt-state hci skb h5 = ground arith

abbrev load : H5Struct → ℕ
load h5 = weight h5.rx_count h5.rx_state

weight-data : (n : ℕ) → weight n w4_data ≤ 2
weight-data n = grind arith

weight-delimiter : (n : ℕ) → weight n w4_pkt_delimiter ≡ 0
weight-delimiter n = grind arith

in_hdr-load : (h5 : H5Struct) → load (in_hdr h5) ≤ 2
unfolding in_hdr
in_hdr-load h5 =
    let skb = data_of h5.rx_skb in
    ground (arith, weight-data (get_or skb 1 0 / 16 + get_or skb 2 0 * 16))

complete-load :
    (hci : Hci) (skb : List ℕ) (h5 : H5Struct) → load (h5_complete_rx_pkt hci skb h5) ≡ 0
complete-load hci skb h5 =
    ap (λ t. weight (h5_complete_rx_pkt hci skb h5).rx_count t)
      (h5_complete_rx_pkt-state hci skb h5)
    ∙ weight-delimiter _

in_data-load : (hci : Hci) (h5 : H5Struct) → load (in_data hci h5) ≡ 0
unfolding in_data
in_data-load hci h5 = ground (arith, complete-load hci (data_of h5.rx_skb) (used h5))

in_crc-load : (b : ℕ → ℕ) (hci : Hci) (h5 : H5Struct) → load (in_crc b hci h5) ≡ 0
unfolding in_crc
in_crc-load b hci h5 =
    let skb = data_of h5.rx_skb in
    ground (arith, complete-load hci (take (length skb - 2) skb) (used h5))

-- A round leaves the loop, or there is less to do.
Less : ℕ → List ℕ → H5Struct → Bool × Bool × H5Struct → Type 0
Less byte bytes h5 r =
    (r.1 ≡ true)
    ⊎ (4 * length (if r.0 then bytes else byte ∷ bytes) + load r.2
        < 4 * suc (length bytes) + load h5)

-- By the count and the state of the receiver.
at_byte :
    (b : ℕ → ℕ) (hci : Hci) (byte : ℕ) (bytes : List ℕ) (h5 : H5Struct)
    → (h5.rx_count == 0) ≡ false
    → Less byte bytes h5 (round b hci byte h5)
unfolding round Less
at_byte b hci byte bytes h5 e =
    let after = in_packet byte h5 in
    inr (ground (arith, e, weight-le after.rx_count after.rx_state))

at_state :
    (b : ℕ → ℕ) (hci : Hci) (byte : ℕ) (bytes : List ℕ) (h5 : H5Struct) (state : RxState)
    → (h5.rx_count ≡ 0)
    → h5.rx_state ≡ state
    → Less byte bytes h5 (round b hci byte h5)
unfolding round Less in_delimiter
at_state b hci byte bytes h5 w4_hdr z e = inr (ground (arith, z, e, in_hdr-load h5))
at_state b hci byte bytes h5 w4_data z e = inr (ground (arith, z, e, in_data-load hci h5))
at_state b hci byte bytes h5 w4_crc z e = inr (ground (arith, z, e, in_crc-load b hci h5))
at_state b hci byte bytes h5 w4_pkt_delimiter z e = inr (ground (arith, z, e))
at_state b hci byte bytes h5 w4_pkt_start z e = elim (Bool-cases (byte == 0xc0)) [
  | inl delimiter ↦ inr (ground (arith, z, e, delimiter))
  | inr start ↦ elim (Bool-cases (alloc h5.given).0) [
    | inl there ↦ inr (ground (arith, z, e, start, there))
    | inr missing ↦ inl (ground (arith, z, e, start, missing))
  ]
]

round-Less :
    (b : ℕ → ℕ) (hci : Hci) (byte : ℕ) (bytes : List ℕ) (h5 : H5Struct)
    → Less byte bytes h5 (round b hci byte h5)
round-Less b hci byte bytes h5 = elim (Bool-cases (h5.rx_count == 0)) [
  | inl z ↦ at_state b hci byte bytes h5 h5.rx_state (ground (arith, z)) refl
  | inr more ↦ at_byte b hci byte bytes h5 more
]

rounds-ends :
    (fuel : ℕ) (b : ℕ → ℕ) (hci : Hci) (bytes : List ℕ) (h5 : H5Struct)
    → 4 * length bytes + load h5 ≤ fuel
    → (rounds fuel b hci bytes h5).0 ≡ true
unfolding rounds Less
rounds-ends fuel b hci [] h5 enough = refl
rounds-ends zero b hci (byte ∷ bytes) h5 enough = absurd (omega (arith, enough))
rounds-ends (suc fuel) b hci (byte ∷ bytes) h5 enough = elim (round-Less b hci byte bytes h5) [
  | inl stop ↦ ground (arith, stop)
  | inr less ↦
      let r = round b hci byte h5 in
      let ih =
        rounds-ends fuel b hci (if r.0 then bytes else byte ∷ bytes) r.2
          (omega (arith, less, enough)) in
      ground (arith, ih)
]

-- From every state and on every bytes, `h5_recv` comes to the end of the bytes or returns where it
-- gets no buffer: four rounds for each byte and three more are enough.
pub h5_recv-ends :
    (b : ℕ → ℕ) (hci : Hci) (bytes : List ℕ) (h5 : H5Struct) → (h5_recv b hci bytes h5).0 ≡ true
unfolding h5_recv
h5_recv-ends b hci bytes h5 =
    rounds-ends (4 * length bytes + 3) b hci bytes h5
      (omega (arith, weight-le h5.rx_count h5.rx_state))
