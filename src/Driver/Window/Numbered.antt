-- ===== src/Driver/Window/Numbered.antt =====
-- The numbers of reliable packets in hci_rtk_h5.c.
use br_external.Prelude.{
  ℕ, ◌+◌, ◌%◌, ◌<◌, ◌≡◌, refl, sym, ap, ap₂, ◌∙◌, subst, arith, true, false, some, List, [], ◌∷◌,
  ◌++◌, append_assoc, length, length-append, get_elem?, All, ltb,
}
use br_external.Coex.State.{alloc}
use br_external.Driver.State.{H5Struct, Pkt, h5_txwinsize}
use br_external.Driver.Frame.{frame, numbered, h5_prepare_pkt}
use br_external.Driver.Frame.Readback.{received, Reads, frame-Reads}
use br_external.Driver.Queues.{send_rel, h5_dequeue}
use br_external.Driver.Window.{Window, IsRel}
use br_external.Driver.Window.Made.{channel-queue_of}

get_elem?-append {ℓ} :
    {A : Type ℓ} (xs ys : List A) (y : A) → get_elem? (xs ++ y ∷ ys) (length xs) ≡ some y
get_elem?-append [] ys y = refl
get_elem?-append (x ∷ xs) ys y = get_elem?-append xs ys y

next_in_stream :
    (stream acked skbs : List Pkt) (skb : Pkt) (h5 : H5Struct)
    → Window stream acked h5
    → h5.rel ≡ skb ∷ skbs
    → get_elem? stream (length acked + length h5.unack) ≡ some skb
next_in_stream stream acked skbs skb h5 w e =
    let split : stream ≡ (acked ++ h5.unack) ++ skb ∷ skbs =
      w.split
      ∙ ap (λ r. acked ++ (h5.unack ++ r)) e
      ∙ sym (append_assoc acked h5.unack (skb ∷ skbs)) in
    ap₂ (λ s n. get_elem? s n) split (sym (length-append acked h5.unack))
    ∙ get_elem?-append (acked ++ h5.unack) skbs skb

-- A window with fewer than four packets that are not acknowledged, nothing that has priority, a
-- reliable packet to send and a buffer for it, and an acknowledgement number below 8: what is sent
-- is the packet of the stream behind those sent before. A receiver that undoes the escapes of the
-- frame up to its delimiter reads in it: the number of the packet's place in the stream, modulo 8,
-- however often it was sent before, the acknowledgement, the flags, the packet's channel, the
-- length, modulo 4096, a correct header checksum, and the packet's bytes. The packet is moved to
-- the end of those that wait for an acknowledgement, and no acknowledgement is due any more.
pub h5_dequeue-numbered :
    (b : ℕ → ℕ) (stream acked skbs : List Pkt) (skb : Pkt) (h5 : H5Struct)
    → Window stream acked h5
    → h5.unrel ≡ []
    → h5.rel ≡ skb ∷ skbs
    → length h5.unack < h5_txwinsize
    → (alloc h5.given).0 ≡ true
    → h5.rxseq_txack < 8
    → let place = length acked + length h5.unack in
      let left = (h5_dequeue b h5).1 in
      (get_elem? stream place ≡ some skb)
      × ((sent : List ℕ) × ((h5_dequeue b h5).0 ≡ some sent)
          × Reads (received sent) (place % 8) h5.rxseq_txack h5.use_crc skb.pkt_type skb.bytes)
      × (left.unack ≡ h5.unack ++ skb ∷ [])
      × (left.rel ≡ skbs)
      × (left.txack_req ≡ false)
unfolding h5_dequeue send_rel h5_prepare_pkt numbered
h5_dequeue-numbered b stream acked skbs skb h5 w idle e gap there small =
    let fit : All IsRel (skb ∷ skbs) = subst (λ r. All IsRel r) e w.rel_fit in
    let c = channel-queue_of skb.pkt_type true fit.0 in
    let inside : ltb (length h5.unack) 4 ≡ true = ground (arith, gap) in
    let reads : Reads (received (frame b h5 c.0 true skb.bytes)) h5.msgq_txseq h5.rxseq_txack
        h5.use_crc skb.pkt_type skb.bytes =
      frame-Reads b h5 skb.pkt_type c.0 skb.bytes (omega (arith, w.number)) small c.1 in
    (
      next_in_stream stream acked skbs skb h5 w e,
      (
        frame b h5 c.0 true skb.bytes,
        ground (arith, idle, e, inside, there, c.1),
        subst
            (λ n.
              Reads (received (frame b h5 c.0 true skb.bytes)) n h5.rxseq_txack h5.use_crc
                skb.pkt_type skb.bytes)
            w.number reads,
      ),
      ground (arith, idle, e, inside, there, c.1),
      ground (arith, idle, e, inside, there, c.1),
      ground (arith, idle, e, inside, there, c.1),
    )
