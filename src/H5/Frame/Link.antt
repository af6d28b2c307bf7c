-- ===== src/H5/Frame/Link.antt =====
-- The link state through `h5_complete_rx_pkt`.
use br_external.Prelude.{
  ℕ, ◌≡◌, refl, sym, subst, false, not, ◌&&◌, ◌==◌, ltb, ◌⊎◌, inl, inr, if_cases, bit_and, [],
  Yields, Yields-bind, Yields-then, Yields-weaken,
}
use br_external.H5.Skb.{Skb, skb_alloc, deref, read, skb_pull, skb_free}
use br_external.H5.State.{Rtb, LinkState, sync, config, init, patch, hci_reset, active}
use br_external.H5.Prepare.{is_set, rtb_send_ack, h5_prepare_pkt, h5_ack_pkt, prepare_in}
use br_external.H5.Frame.{
  recv_frame_in, hci_recv_frame, h5_init_hci_cc, h5_post_hci_cc, recv_patch_answer,
  command_complete, init_answer, hci_cmd_reset, internal_sync, internal_config, internal_in,
  h5_handle_internal_rx, take_header, is_passed_up, pass_up, keep_here, route, answer, release,
  h5_complete_rx_pkt, h5_hdr_pkt_type,
}

-- The steps of the link state that a packet can set off.
pub data LinkStep : LinkState → LinkState → Type 0 where
  synced : LinkStep sync config
  configured : LinkStep config init
  downloaded : LinkStep patch hci_reset
  reset_done : LinkStep hci_reset active

-- At most one step.
abbrev pub Moves : LinkState → LinkState → Type 0
Moves a b = (b ≡ a) ⊎ LinkStep a b

abbrev pub MovesTo : LinkState → Rtb → Type 0
MovesTo a t = Moves a t.link_estab_state

abbrev FirstMoves : LinkState → Rtb × Skb → Type 0
FirstMoves a r = MovesTo a r.0

-- From a link state that is known.
Moves-from :
    (s : Rtb) (a b : LinkState) → s.link_estab_state ≡ a → LinkStep a b → Moves s.link_estab_state b
Moves-from s a b e p = subst (λ x. Moves x b) (sym e) (inr p)

h5_init_hci_cc-Moves :
    (s : Rtb) (skb : Skb) → Yields (FirstMoves s.link_estab_state) (h5_init_hci_cc s skb)
unfolding h5_init_hci_cc
h5_init_hci_cc-Moves s skb =
    let P = FirstMoves s.link_estab_state in
    Yields-bind P (command_complete skb) _ λ r.
      if_cases (Yields P) (is_set r.0) _ _ (λ _. inl refl)
        λ _.
          if_cases (Yields P) (not (s.cmd_state.opcode == r.1)) _ _ (λ _. inl refl)
            λ _. Yields-bind P (init_answer r.1 s.cmd_state.subopcode s.chip r.2) _ λ chip. inl refl

h5_post_hci_cc-Moves :
    (s : Rtb) (skb : Skb)
    → s.link_estab_state ≡ hci_reset
    → Yields (FirstMoves s.link_estab_state) (h5_post_hci_cc s skb)
unfolding h5_post_hci_cc
h5_post_hci_cc-Moves s skb e =
    let P = FirstMoves s.link_estab_state in
    Yields-bind P (command_complete skb) _ λ r.
      if_cases (Yields P) (is_set r.0) _ _ (λ _. inl refl)
        λ _.
          if_cases (Yields P) (not (s.cmd_state.opcode == r.1)) _ _ (λ _. inl refl)
            λ _.
              if_cases (Moves s.link_estab_state) (r.1 == hci_cmd_reset) _ _
                (λ _. Moves-from s hci_reset active e reset_done) (λ _. inl refl)

recv_patch_answer-Moves :
    (s : Rtb) (skb : Skb)
    → s.link_estab_state ≡ patch
    → Yields (FirstMoves s.link_estab_state) (recv_patch_answer s skb)
unfolding recv_patch_answer
recv_patch_answer-Moves s skb e =
    let P = FirstMoves s.link_estab_state in
    Yields-bind P (read skb 0) _ λ code.
      if_cases (Yields P) (not (code == 0x0e)) _ _ (λ _. inl refl)
        λ _. Yields-bind P (read skb 6) _ λ index.
          if_cases (Yields P) (is_set (bit_and index 0x80)) _ _
            (λ _. Moves-from s patch hci_reset e downloaded) (λ _. inl refl)

recv_frame_in-Moves :
    (st : LinkState) (s : Rtb) (skb : Skb)
    → s.link_estab_state ≡ st
    → Yields (FirstMoves s.link_estab_state) (recv_frame_in st s skb)
unfolding recv_frame_in
recv_frame_in-Moves init s skb e =
    Yields-bind (FirstMoves s.link_estab_state) (read skb 0) _ λ code.
      if_cases (Yields (FirstMoves s.link_estab_state)) (code == 0x0e) _ _
        (λ _. h5_init_hci_cc-Moves s skb) (λ _. inl refl)
recv_frame_in-Moves patch s skb e = recv_patch_answer-Moves s skb e
recv_frame_in-Moves hci_reset s skb e =
    Yields-bind (FirstMoves s.link_estab_state) (read skb 0) _ λ code.
      if_cases (Yields (FirstMoves s.link_estab_state)) (code == 0x0e) _ _
        (λ _. h5_post_hci_cc-Moves s skb e) (λ _. inl refl)
recv_frame_in-Moves sync s skb e = inl refl
recv_frame_in-Moves config s skb e = inl refl
recv_frame_in-Moves active s skb e = inl refl

-- An acknowledgement leaves the link state alone.
rtb_send_ack-same :
    (s : Rtb) → Yields (λ t. t.link_estab_state ≡ s.link_estab_state) (rtb_send_ack s)
unfolding rtb_send_ack h5_prepare_pkt
rtb_send_ack-same s =
    let (p, heap') = skb_alloc 14 s.heap in
    Yields-then (λ r. r.1.link_estab_state ≡ s.link_estab_state)
      (λ t. t.link_estab_state ≡ s.link_estab_state) _ _
      (Yields-bind (λ r. r.1.link_estab_state ≡ s.link_estab_state)
        (prepare_in p s.h5 [] h5_ack_pkt false) _ λ r. refl)
      λ r e.
        Yields-bind (λ t. t.link_estab_state ≡ s.link_estab_state) (deref r.0) _
          λ nskb. Yields-bind (λ t. t.link_estab_state ≡ s.link_estab_state) (skb_free r.0) _ λ x. e

internal_config-Moves :
    (s : Rtb) (skb : Skb) (a b : ℕ)
    → s.link_estab_state ≡ config
    → Yields (MovesTo s.link_estab_state) (internal_config s skb a b)
unfolding internal_config
internal_config-Moves s skb a b e =
    let P = MovesTo s.link_estab_state in
    let up = Moves-from s config init e configured in
    if_cases (Yields P) (a == 0x01 && b == 0x7e) _ _ (λ _. inl refl)
      λ _.
        if_cases (Yields P) (a == 0x03 && b == 0xfc) _ _ (λ _. inl refl)
          λ _.
            if_cases (Yields P) (a == 0x04 && b == 0x7b) _ _
              (λ _.
                if_cases (Yields P) (ltb 2 skb.data_len) _ _
                  (λ _. Yields-bind P (read skb 2) _ λ x. up) (λ _. up))
              (λ _. Yields-weaken _ P (rtb_send_ack s) (rtb_send_ack-same s) λ t same. inl same)

internal_sync-Moves :
    (s : Rtb) (a b : ℕ)
    → s.link_estab_state ≡ sync
    → MovesTo s.link_estab_state (internal_sync s a b)
unfolding internal_sync
internal_sync-Moves s a b e =
    let P = MovesTo s.link_estab_state in
    if_cases P (a == 0x01 && b == 0x7e) _ _ (λ _. inl refl)
      λ _.
        if_cases P (a == 0x02 && b == 0x7d) _ _ (λ _. Moves-from s sync config e synced)
          (λ _. inl refl)

internal_in-Moves :
    (st : LinkState) (s : Rtb) (skb : Skb)
    → s.link_estab_state ≡ st
    → Yields (MovesTo s.link_estab_state) (internal_in st s skb)
unfolding internal_in
internal_in-Moves sync s skb e =
    Yields-bind (MovesTo s.link_estab_state) (read skb 0) _
      λ a. Yields-bind (MovesTo s.link_estab_state) (read skb 1) _ λ b. internal_sync-Moves s a b e
internal_in-Moves config s skb e = Yields-bind (MovesTo s.link_estab_state) (read skb 0) _ λ a.
    Yields-bind (MovesTo s.link_estab_state) (read skb 1) _ λ b. internal_config-Moves s skb a b e
internal_in-Moves init s skb e = inl refl
internal_in-Moves patch s skb e = inl refl
internal_in-Moves hci_reset s skb e = inl refl
internal_in-Moves active s skb e = inl refl

pass_up-Moves : (s : Rtb) (skb : Skb) → Yields (FirstMoves s.link_estab_state) (pass_up s skb)
unfolding pass_up hci_recv_frame
pass_up-Moves s skb =
    Yields-bind (FirstMoves s.link_estab_state) (skb_pull skb 4) _
      λ u. recv_frame_in-Moves s.link_estab_state s u refl

keep_here-Moves : (s : Rtb) (skb : Skb) → Yields (FirstMoves s.link_estab_state) (keep_here s skb)
unfolding keep_here h5_handle_internal_rx
keep_here-Moves s skb = Yields-bind (FirstMoves s.link_estab_state) (skb_pull skb 4) _ λ u.
    Yields-then (MovesTo s.link_estab_state) (FirstMoves s.link_estab_state)
      (internal_in s.link_estab_state s u) _ (internal_in-Moves s.link_estab_state s u refl)
      λ t m. m

route-Moves : (s : Rtb) (skb : Skb) (t : ℕ) → Yields (FirstMoves s.link_estab_state) (route s skb t)
unfolding route
route-Moves s skb t =
    let P = FirstMoves s.link_estab_state in
    if_cases (Yields P) (is_passed_up t) _ _ (λ _. pass_up-Moves s skb)
      λ _. if_cases (Yields P) (t == 0x0f) _ _ (λ _. keep_here-Moves s skb) (λ _. inl refl)

answer-same : (s : Rtb) → Yields (λ t. t.link_estab_state ≡ s.link_estab_state) (answer s)
unfolding answer
answer-same s =
    let P = λ (t : Rtb). t.link_estab_state ≡ s.link_estab_state in
    if_cases (Yields P) (is_set s.h5.is_txack_req) _ _
      (λ _. Yields-then P P (rtb_send_ack s) _ (rtb_send_ack-same s) λ t e. e) (λ _. refl)

-- A complete packet takes the link state one step on at most.
pub h5_complete_rx_pkt-Moves :
    (s : Rtb) → Yields (MovesTo s.link_estab_state) (h5_complete_rx_pkt s)
unfolding h5_complete_rx_pkt release skb_free
h5_complete_rx_pkt-Moves s =
    let a = s.link_estab_state in
    let P = MovesTo a in
    Yields-bind P (deref s.h5.rx_skb) _ λ skb. Yields-bind P (read skb 0) _ λ h0.
      Yields-bind P (read skb 1) _ λ h1.
        let s1 : Rtb = record s { h5 = take_header s.h5 h0 } in
        Yields-then (FirstMoves a) P (route s1 skb (h5_hdr_pkt_type h1)) _
          (route-Moves s1 skb (h5_hdr_pkt_type h1))
          λ r m.
            Yields-then (λ t. t.link_estab_state ≡ r.0.link_estab_state) P (answer r.0) _
              (answer-same r.0) λ t e. subst (Moves a) (sym e) m
