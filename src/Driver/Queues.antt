-- ===== src/Driver/Queues.antt =====
-- The queues of hci_rtk_h5.c: what is put in, what is sent and when it is taken out.
use br_external.Prelude.{
  ℕ, zero, suc, ◌+◌, ◌/◌, ◌%◌, Bool, true, false, not, ◌&&◌, if◌then◌else◌, ltb, ◌==◌, Option, none,
  some, List, [], ◌∷◌, ◌++◌, length, get_or, drop,
}
use br_external.Coex.Hci.{Hci}
use br_external.Coex.State.{Coex, alloc}
use br_external.Coex.Parser.{rtk_btcoex_parse_event}
use br_external.Coex.Signals.{rtk_btcoex_parse_l2cap_data}
use br_external.Driver.State.{
  H5Struct, Pkt, PktType, acldata, command, event, scodata, le, ack, vdrspec, unknown_type,
  h5_txwinsize, no_skb,
}
use br_external.H5.State.{w4_pkt_delimiter, noesc}
use br_external.Driver.Frame.{h5_prepare_pkt}

-- Which queue a packet goes to: the reliable one, the other, or none.
unfoldable pub queue_of : PktType → Option Bool
queue_of acldata = some true
queue_of command = some true
queue_of scodata = some false
queue_of le = some false
queue_of ack = some false
queue_of vdrspec = some false
queue_of event = none
queue_of (unknown_type n) = none

unfoldable pub h5_enqueue : Pkt → H5Struct → H5Struct
unfolding queue_of
h5_enqueue skb h5 = if ltb 0xFFF (length skb.bytes) then h5 else elim (queue_of skb.pkt_type) [
  | none ↦ h5
  | some is_rel ↦
      if is_rel
      then record h5 { rel = h5.rel ++ skb ∷ [] }
      else record h5 { unrel = h5.unrel ++ skb ∷ [] }
]

-- The three parts of `h5_dequeue`, the last one first. An acknowledgement, if one is due:
unfoldable pub send_ack : (ℕ → ℕ) → H5Struct → Option (List ℕ) × H5Struct
unfolding h5_prepare_pkt
send_ack bitrev16 h5 = if h5.txack_req then h5_prepare_pkt bitrev16 [] ack h5 else (none, h5)

-- A reliable packet, while the window is open; a packet that cannot be made stays at the head.
unfoldable pub send_rel : (ℕ → ℕ) → H5Struct → Option (List ℕ) × H5Struct
unfolding h5_prepare_pkt send_ack
send_rel bitrev16 h5 = elim h5.rel [
  | [] ↦ send_ack bitrev16 h5
  | skb ∷ skbs ↦
      let (nskb, h5') = h5_prepare_pkt bitrev16 skb.bytes skb.pkt_type h5 in
      if not (ltb (length h5.unack) h5_txwinsize) then send_ack bitrev16 h5 else elim nskb [
        | none ↦ send_ack bitrev16 h5'
        | some n ↦
            (some n, record h5' { unack = h5.unack ++ skb ∷ []; rel = skbs; retrans_work = true })
      ]
]

unfoldable pub h5_dequeue : (ℕ → ℕ) → H5Struct → Option (List ℕ) × H5Struct
unfolding h5_prepare_pkt send_rel
h5_dequeue bitrev16 h5 = elim h5.unrel [
  | [] ↦ send_rel bitrev16 h5
  | skb ∷ skbs ↦
      let (nskb, h5') = h5_prepare_pkt bitrev16 skb.bytes skb.pkt_type h5 in
      elim nskb [ none ↦ send_rel bitrev16 h5' | some n ↦ (some n, record h5' { unrel = skbs }) ]
]

-- The first loop of `h5_pkt_cull`: how many packets the number acknowledges.
unfoldable pub to_be_removed : ℕ → ℕ → ℕ → ℕ
to_be_removed zero seqno rxack = zero
to_be_removed (suc n) seqno rxack =
    let rest = to_be_removed n ((seqno + 7) % 8) rxack in if rxack == seqno then suc n else rest

-- With the walk over the queue, which takes the first ones out.
unfoldable pub h5_pkt_cull : H5Struct → H5Struct
unfolding to_be_removed
h5_pkt_cull h5 =
    let n = to_be_removed (length h5.unack) h5.msgq_txseq h5.rxack in
    let left = drop n h5.unack in
    record h5 { unack = left; retrans_work = if length left == 0 then false else h5.retrans_work }

-- The loop of `h5_timed_event`, which takes from the tail: the queue, and the number rolled back.
unfoldable pub roll_back : List Pkt → List Pkt → ℕ → List Pkt × ℕ
roll_back [] rel seq = (rel, seq)
roll_back (skb ∷ skbs) rel seq =
    let (rel', seq') = roll_back skbs rel seq in (skb ∷ rel', (seq' + 7) % 8)

unfoldable pub h5_timed_event : H5Struct → H5Struct
unfolding roll_back
h5_timed_event h5 =
    let (rel, seq) = roll_back h5.unack h5.rel h5.msgq_txseq in
    record h5 { unack = []; rel = rel; msgq_txseq = seq; retrans_work = false; woken = true }

-- The first byte of a header: whether the packet is reliable, and the number it acknowledges.
abbrev pub is_reliable : List ℕ → Bool
is_reliable skb = get_or skb 0 0 / 128 % 2 == 1

-- The type that a packet is passed up with, if it is.
unfoldable pub passed_up : List ℕ → Option PktType
passed_up skb =
    let chan = get_or skb 1 0 % 16 in
    let reliable = is_reliable skb in
    if chan == 2 && reliable
    then some acldata
    else if chan == 4 && reliable
    then some event
    else if chan == 3
    then some scodata
    else if chan == 15 && not reliable
    then none
    else if chan == 1 && reliable
    then some command
    else if chan == 14
    then some vdrspec
    else none

-- What the coexistence code is shown.
unfoldable pub shown : Hci → PktType → List ℕ → Coex → Coex
unfolding rtk_btcoex_parse_event rtk_btcoex_parse_l2cap_data
shown hci event bytes c = (rtk_btcoex_parse_event hci bytes c).1
shown hci acldata bytes c = rtk_btcoex_parse_l2cap_data hci bytes false c
shown hci command bytes c = c
shown hci scodata bytes c = c
shown hci le bytes c = c
shown hci ack bytes c = c
shown hci vdrspec bytes c = c
shown hci (unknown_type n) bytes c = c

-- The numbers of a packet that came, before the queue is culled.
unfoldable pub acknowledged : List ℕ → H5Struct → H5Struct
acknowledged skb h5 = record h5 {
  rxseq_txack = if is_reliable skb then (h5.rxseq_txack + 1) % 8 else h5.rxseq_txack;
  txack_req = if is_reliable skb then true else h5.txack_req;
  rxack = get_or skb 0 0 / 8 % 8;
}

-- A packet of at least the four bytes of its header; these are pulled off what is passed up.
unfoldable pub h5_complete_rx_pkt : Hci → List ℕ → H5Struct → H5Struct
unfolding acknowledged h5_pkt_cull passed_up shown
h5_complete_rx_pkt hci skb h5 =
    let culled : H5Struct = record (h5_pkt_cull (acknowledged skb h5)) {
      woken = true;
      rx_state = w4_pkt_delimiter;
      rx_skb = no_skb;
    } in
    let bytes = drop 4 skb in
    elim (passed_up skb) [
      | none ↦ culled
      | some t ↦ record culled {
        received = culled.received ++ record { pkt_type = t; bytes = bytes } ∷ [];
        coex = shown hci t bytes culled.coex;
      }
    ]

-- The state that `kzalloc` clears, and the CRC; nothing that is compiled changes `txcrc`, which is 1.
abbrev pub opened : H5Struct → H5Struct
opened h5 = record h5 {
  unack = [];
  rel = [];
  unrel = [];
  retrans_work = false;
  use_crc = true;
  rxack = 0;
  rxseq_txack = 0;
  txack_req = false;
  msgq_txseq = 0;
  rx_count = 0;
  rx_skb = no_skb;
  rx_state = w4_pkt_delimiter;
  rx_esc_state = noesc;
  message_crc = 0;
}

-- Whether it opens, and the state.
unfoldable pub h5_open : H5Struct → Bool × H5Struct
h5_open h5 =
    let (there, given) = alloc h5.given in
    let h5' = record h5 { given = given } in if there then (true, opened h5') else (false, h5')

unfoldable pub h5_close : H5Struct → H5Struct
h5_close h5 = record h5 { unack = []; rel = []; unrel = []; retrans_work = false }
