-- ===== src/H5/Recv/Link.antt =====
-- The link state over a run of `h5_recv`.
use br_external.Prelude.{
  ℕ, zero, suc, ◌+◌, ◌*◌, ◌≡◌, refl, sym, subst, Bool, not, ◌&&◌, ◌==◌, inl, inr, if_cases, bit_and,
  List, [], ◌∷◌, length, All, Outcome, ok, exited, fault, looping, ◌>>=◌, Safe, Yields, Yields-bind,
  Yields-then, Yields-weaken, Both, Safe-Yields,
}
use br_external.H5.Crc.{bit_rev16}
use br_external.H5.Prepare.{is_set, not8}
use br_external.H5.Skb.{SkbPtr, null, freed, live, deref, read, skb_alloc}
use br_external.H5.Slip.{h5_unslip_one_byte}
use br_external.H5.State.{
  Rtb, LinkState, RxState, w4_pkt_delimiter, w4_pkt_start, w4_hdr, w4_data, w4_crc,
}
use br_external.H5.State.Valid.{IsByte, IsValid}
use br_external.H5.Frame.{h5_complete_rx_pkt}
use br_external.H5.Frame.Link.{LinkStep, Moves, MovesTo, h5_complete_rx_pkt-Moves}
use br_external.H5.Recv.{
  Round, next, again, stop, drop_packet, recv_byte, give_up, out_of_order, check_header, recv_hdr,
  recv_data, h5_get_crc, recv_crc, recv_delimiter, alloc_packet, recv_start, recv_in, round, turn,
  recv_loop, h5_recv,
}
use br_external.H5.Recv.Safety.{h5_recv-Safe}

-- Any number of steps of the link state.
pub data LinkReach (a : LinkState) : LinkState → Type 0 where
  stay : LinkReach a a
  onwards : {b c : LinkState} → LinkReach a b → LinkStep b c → LinkReach a c

reach_trans : {a b c : LinkState} → LinkReach a b → LinkReach b c → LinkReach a c
reach_trans p stay = p
reach_trans p (onwards q s) = onwards (reach_trans p q) s

Moves-reach : {a b : LinkState} → Moves a b → LinkReach a b
Moves-reach {a} (inl e) = subst (LinkReach a) (sym e) stay
Moves-reach (inr s) = onwards stay s

abbrev pub Reached : LinkState → Rtb → Type 0
Reached a t = LinkReach a t.link_estab_state

-- The state that a round leaves.
abbrev Leaves : LinkState → Round → Type 0
Leaves a (next t) = MovesTo a t
Leaves a (again t) = MovesTo a t
Leaves a (stop t) = MovesTo a t

recv_byte-Leaves : (s : Rtb) (byte : ℕ) → Yields (Leaves s.link_estab_state) (recv_byte s byte)
unfolding recv_byte
recv_byte-Leaves s byte =
    let P = Leaves s.link_estab_state in
    if_cases (Yields P) (byte == 0xc0) _ _
      (λ _. Yields-bind P (drop_packet s.h5 w4_pkt_start) _ λ h. inl refl)
      (λ _. Yields-bind P (h5_unslip_one_byte s.h5 byte) _ λ h. inl refl)

give_up-Leaves : (s : Rtb) → Yields (Leaves s.link_estab_state) (give_up s)
unfolding give_up
give_up-Leaves s =
    Yields-bind (Leaves s.link_estab_state) (drop_packet s.h5 w4_pkt_delimiter) _ λ h. inl refl

out_of_order-Leaves : (s : Rtb) (d0 : ℕ) → Yields (Leaves s.link_estab_state) (out_of_order s d0)
unfolding out_of_order
out_of_order-Leaves s d0 =
    Yields-bind (Leaves s.link_estab_state)
      (drop_packet (record (s.h5) { is_txack_req = 1 }) w4_pkt_delimiter) _ λ h. inl refl

recv_hdr-Leaves : (s : Rtb) → Yields (Leaves s.link_estab_state) (recv_hdr s)
unfolding recv_hdr check_header
recv_hdr-Leaves s =
    let P = Leaves s.link_estab_state in
    Yields-bind P (deref s.h5.rx_skb) _ λ skb. Yields-bind P (read skb 0) _ λ d0.
      Yields-bind P (read skb 1) _ λ d1. Yields-bind P (read skb 2) _ λ d2.
        Yields-bind P (read skb 3) _ λ d3.
          if_cases (Yields P) (not (not8 (d0 + d1 + d2) == d3)) _ _ (λ _. give_up-Leaves s)
            λ _.
              if_cases (Yields P)
                (is_set (bit_and d0 0x80) && not (bit_and d0 0x07 == s.h5.rxseq_txack)) _ _
                (λ _. out_of_order-Leaves s d0) (λ _. inl refl)

-- A round that ends a packet.
complete-Leaves :
    (a : LinkState) (s : Rtb)
    → s.link_estab_state ≡ a
    → Yields (Leaves a) (h5_complete_rx_pkt s >>= λ t. ok (again t))
complete-Leaves a s e =
    Yields-then (MovesTo s.link_estab_state) (Leaves a) (h5_complete_rx_pkt s) _
      (h5_complete_rx_pkt-Moves s) λ t m. subst (λ x. MovesTo x t) e m

recv_data-Leaves : (s : Rtb) → Yields (Leaves s.link_estab_state) (recv_data s)
unfolding recv_data
recv_data-Leaves s =
    let P = Leaves s.link_estab_state in
    Yields-bind P (deref s.h5.rx_skb) _ λ skb. Yields-bind P (read skb 0) _ λ d0.
      if_cases (Yields P) (is_set (bit_and d0 0x40)) _ _ (λ _. inl refl)
        (λ _. complete-Leaves s.link_estab_state s refl)

recv_crc-Leaves : (s : Rtb) → Yields (Leaves s.link_estab_state) (recv_crc s)
unfolding recv_crc
recv_crc-Leaves s =
    let P = Leaves s.link_estab_state in
    Yields-bind P (deref s.h5.rx_skb) _ λ skb. Yields-bind P (h5_get_crc skb) _ λ crc.
      if_cases (Yields P) (not (bit_rev16 s.h5.message_crc == crc)) _ _ (λ _. give_up-Leaves s)
        (λ _. complete-Leaves s.link_estab_state _ refl)

alloc_packet-Leaves :
    (s : Rtb) (r : SkbPtr × List Bool) → Yields (Leaves s.link_estab_state) (alloc_packet s r)
unfolding alloc_packet
alloc_packet-Leaves s (live skb, heap') = inl refl
alloc_packet-Leaves s (null, heap') = inl refl
alloc_packet-Leaves s (freed, heap') = inl refl

recv_in-Leaves :
    (st : RxState) (s : Rtb) (byte : ℕ) → Yields (Leaves s.link_estab_state) (recv_in st s byte)
unfolding recv_in recv_delimiter recv_start
recv_in-Leaves w4_hdr s byte = recv_hdr-Leaves s
recv_in-Leaves w4_data s byte = recv_data-Leaves s
recv_in-Leaves w4_crc s byte = recv_crc-Leaves s
recv_in-Leaves w4_pkt_delimiter s byte =
    if_cases (Yields (Leaves s.link_estab_state)) (byte == 0xc0) _ _ (λ _. inl refl) (λ _. inl refl)
recv_in-Leaves w4_pkt_start s byte =
    if_cases (Yields (Leaves s.link_estab_state)) (byte == 0xc0) _ _ (λ _. inl refl)
      (λ _. alloc_packet-Leaves s (skb_alloc 0x1005 s.heap))

round-Leaves : (s : Rtb) (byte : ℕ) → Yields (Leaves s.link_estab_state) (round s byte)
unfolding round
round-Leaves s byte =
    if_cases (Yields (Leaves s.link_estab_state)) (is_set s.h5.rx_count) _ _
      (λ _. recv_byte-Leaves s byte) (λ _. recv_in-Leaves s.h5.rx_state s byte)

turn-Reached :
    (a : LinkState) (on back : Rtb → Outcome Rtb) (m : Outcome Round)
    → Yields (Leaves a) m
    → ((t : Rtb) → MovesTo a t → Yields (Reached a) (on t))
    → ((t : Rtb) → MovesTo a t → Yields (Reached a) (back t))
    → Yields (Reached a) (turn on back m)
unfolding turn
turn-Reached a on back (ok (next t)) h f g = f t h
turn-Reached a on back (ok (again t)) h f g = g t h
turn-Reached a on back (ok (stop t)) h f g = Moves-reach h
turn-Reached a on back exited h f g = tt
turn-Reached a on back fault h f g = tt
turn-Reached a on back looping h f g = tt

recv_loop-Reached :
    (fuel : ℕ) (s : Rtb) (bytes : List ℕ)
    → Yields (Reached s.link_estab_state) (recv_loop fuel s bytes)
unfolding recv_loop
recv_loop-Reached zero s bytes = tt
recv_loop-Reached (suc fuel) s [] = stay
recv_loop-Reached (suc fuel) s (byte ∷ bytes) =
    turn-Reached s.link_estab_state _ _ (round s byte) (round-Leaves s byte)
      (λ t m.
        Yields-weaken _ _ (recv_loop fuel t bytes) (recv_loop-Reached fuel t bytes)
          λ u r. reach_trans (Moves-reach m) r)
      (λ t m.
        Yields-weaken _ _ (recv_loop fuel t (byte ∷ bytes))
          (recv_loop-Reached fuel t (byte ∷ bytes)) λ u r. reach_trans (Moves-reach m) r)

-- Whatever bytes come in, from a valid state and where `malloc` does not fail, `h5_recv` takes the
-- link state only along the steps sync to config, config to init, patch to hci_reset and hci_reset
-- to active, and where it returns (instead of exiting on a short event), the state is valid.
pub h5_recv-Reached :
    (s : Rtb) (bytes : List ℕ)
    → IsValid s
    → All IsByte bytes
    → Safe (Both IsValid (Reached s.link_estab_state)) (h5_recv s bytes)
h5_recv-Reached s bytes v b =
    Safe-Yields IsValid (Reached s.link_estab_state) (h5_recv s bytes) (h5_recv-Safe s bytes v b)
      (unfold h5_recv in recv_loop-Reached (3 * length bytes + 3) s bytes)
