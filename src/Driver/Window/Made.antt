-- ===== src/Driver/Window/Made.antt =====
-- The packets that are made in hci_rtk_h5.c, and the transmit window.
use br_external.Prelude.{
  ℕ, ◌<◌, ◌≡◌, refl, sym, ap, ◌∙◌, subst, arith, Bool, true, false, Bool-cases, none, some, List,
  [], ◌∷◌, ◌++◌, append_assoc, length, length-append, All, All-append, ◌⊎◌, inl, inr,
}
use br_external.Coex.State.{alloc}
use br_external.Driver.State.{
  H5Struct, Pkt, PktType, acldata, command, event, scodata, le, ack, vdrspec, unknown_type,
  h5_txwinsize,
}
use br_external.Driver.Frame.{channel, frame, numbered, h5_prepare_pkt}
use br_external.Driver.Queues.{queue_of, send_ack}
use br_external.Driver.Window.{Window, IsRel}

-- The queue and the channel of a type fit.
pub channel-queue_of :
    (t : PktType) (r : Bool) → queue_of t ≡ some r → (chan : ℕ) × (channel t ≡ some (chan, r))
unfolding queue_of channel
channel-queue_of acldata r e = (2, ground (arith, e))
channel-queue_of command r e = (1, ground (arith, e))
channel-queue_of scodata r e = (3, ground (arith, e))
channel-queue_of le r e = (15, ground (arith, e))
channel-queue_of ack r e = (0, ground (arith, e))
channel-queue_of vdrspec r e = (14, ground (arith, e))
channel-queue_of event r e = absurd (ground (arith, e))
channel-queue_of (unknown_type n) r e = absurd (ground (arith, e))

abbrev pub answered : H5Struct → H5Struct
answered h5 = record h5 { given = (alloc h5.given).1 }

-- A packet of one of the queues is made, or its buffer is not given.
pub made :
    (b : ℕ → ℕ) (bytes : List ℕ) (t : PktType) (r : Bool) (h5 : H5Struct)
    → queue_of t ≡ some r
    → (h5_prepare_pkt b bytes t h5 ≡ (none, answered h5))
      ⊎ ((n : List ℕ) × (h5_prepare_pkt b bytes t h5 ≡ (some n, numbered r (answered h5))))
unfolding h5_prepare_pkt
made b bytes t r h5 e =
    let c = channel-queue_of t r e in
    elim (Bool-cases (alloc h5.given).0) [
      | inl there ↦ inr (frame b h5 c.0 r bytes, ground (arith, c.1, there))
      | inr missing ↦ inl (ground (arith, c.1, missing))
    ]

pub answered-Window :
    (stream acked : List Pkt) (h5 : H5Struct)
    → Window stream acked h5
    → Window stream acked (answered h5)
answered-Window stream acked h5 w = record {
  split = w.split;
  number = w.number;
  small = w.small;
  rel_fit = w.rel_fit;
  unack_fit = w.unack_fit;
  unrel_fit = w.unrel_fit;
}

-- A packet that is not reliable takes no number.
pub unnumbered-Window :
    (stream acked : List Pkt) (h5 : H5Struct)
    → Window stream acked h5
    → Window stream acked (numbered false (answered h5))
unfolding numbered
unnumbered-Window stream acked h5 w = record {
  split = w.split;
  number = w.number;
  small = w.small;
  rel_fit = w.rel_fit;
  unack_fit = w.unack_fit;
  unrel_fit = w.unrel_fit;
}

pub send_ack-Window :
    (b : ℕ → ℕ) (stream acked : List Pkt) (h5 : H5Struct)
    → Window stream acked h5
    → Window stream acked (send_ack b h5).1
unfolding send_ack queue_of
send_ack-Window b stream acked h5 w = elim (Bool-cases h5.txack_req) [
  | inr idle ↦ subst (λ x. Window stream acked x) (ground (arith, idle)) w
  | inl due ↦ elim (made b [] ack false h5 refl) [
    | inl e ↦
        subst (λ x. Window stream acked x) (ground (arith, due, e))
          (answered-Window stream acked h5 w)
    | inr (n, e) ↦
        subst (λ x. Window stream acked x) (ground (arith, due, e))
          (unnumbered-Window stream acked h5 w)
  ]
]

-- A reliable packet goes over to those that wait, with the next number.
unfoldable pub sent : Pkt → List Pkt → H5Struct → H5Struct
unfolding numbered
sent skb skbs h5 = record (numbered true (answered h5)) {
  unack = h5.unack ++ skb ∷ [];
  rel = skbs;
  retrans_work = true;
}

pub sent-Window :
    (stream acked : List Pkt) (skb : Pkt) (skbs : List Pkt) (h5 : H5Struct)
    → Window stream acked h5
    → h5.rel ≡ skb ∷ skbs
    → length h5.unack < h5_txwinsize
    → Window stream acked (sent skb skbs h5)
unfolding sent numbered
sent-Window stream acked skb skbs h5 w e gap =
    let fit : All IsRel (skb ∷ skbs) = subst (λ r. All IsRel r) e w.rel_fit in
    let one = length-append h5.unack (skb ∷ []) in
    record {
      split =
          w.split
          ∙ ap (λ r. acked ++ (h5.unack ++ r)) e
          ∙ ap (λ r. acked ++ r) (sym (append_assoc h5.unack (skb ∷ []) skbs));
      number = omega (arith, w.number, one);
      small = omega (arith, one, gap);
      rel_fit = fit.1;
      unack_fit = All-append IsRel h5.unack (skb ∷ []) w.unack_fit (fit.0, tt);
      unrel_fit = w.unrel_fit;
    }
