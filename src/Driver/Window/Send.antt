-- ===== src/Driver/Window/Send.antt =====
-- `h5_dequeue` of hci_rtk_h5.c keeps the transmit window.
use br_external.Prelude.{
  ℕ, ◌≡◌, refl, sym, subst, arith, true, false, Bool-cases, ltb, Option, none, some, List, [], ◌∷◌,
  length, All, ◌⊎◌, inl, inr,
}
use br_external.Driver.State.{H5Struct, Pkt, h5_txwinsize}
use br_external.Driver.Frame.{numbered, h5_prepare_pkt}
use br_external.Driver.Queues.{send_ack, send_rel, h5_dequeue}
use br_external.Driver.Window.{Window, IsRel, IsUnrel}
use br_external.Driver.Window.Made.{
  answered, made, answered-Window, unnumbered-Window, send_ack-Window, sent, sent-Window,
}

-- Which part of `send_rel` is run.
rel-nil : (b : ℕ → ℕ) (h5 : H5Struct) → h5.rel ≡ [] → send_rel b h5 ≡ send_ack b h5
unfolding send_rel
rel-nil b h5 e = ground (arith, e)

rel-full :
    (b : ℕ → ℕ) (skb : Pkt) (skbs : List Pkt) (h5 : H5Struct)
    → h5.rel ≡ skb ∷ skbs
    → ltb (length h5.unack) h5_txwinsize ≡ false
    → send_rel b h5 ≡ send_ack b h5
unfolding send_rel
rel-full b skb skbs h5 e full = ground (arith, e, full)

rel-missing :
    (b : ℕ → ℕ) (skb : Pkt) (skbs : List Pkt) (h5 : H5Struct)
    → h5.rel ≡ skb ∷ skbs
    → ltb (length h5.unack) h5_txwinsize ≡ true
    → h5_prepare_pkt b skb.bytes skb.pkt_type h5 ≡ (none, answered h5)
    → send_rel b h5 ≡ send_ack b (answered h5)
unfolding send_rel
rel-missing b skb skbs h5 e gap m = ground (arith, e, gap, m)

rel-sent :
    (b : ℕ → ℕ) (skb : Pkt) (skbs : List Pkt) (h5 : H5Struct) (n : List ℕ)
    → h5.rel ≡ skb ∷ skbs
    → ltb (length h5.unack) h5_txwinsize ≡ true
    → h5_prepare_pkt b skb.bytes skb.pkt_type h5 ≡ (some n, numbered true (answered h5))
    → send_rel b h5 ≡ (some n, sent skb skbs h5)
unfolding send_rel sent
rel-sent b skb skbs h5 n e gap m = ground (arith, e, gap, m)

-- The head of a queue.
List-cases : (xs : List Pkt) → (xs ≡ []) ⊎ ((x : Pkt) × (rest : List Pkt) × (xs ≡ x ∷ rest))
List-cases [] = inl refl
List-cases (x ∷ rest) = inr (x, rest, refl)

send_rel-Window :
    (b : ℕ → ℕ) (stream acked : List Pkt) (h5 : H5Struct)
    → Window stream acked h5
    → Window stream acked (send_rel b h5).1
send_rel-Window b stream acked h5 w =
    let to : (r : Option (List ℕ) × H5Struct)
        → send_rel b h5 ≡ r
        → Window stream acked r.1
        → Window stream acked (send_rel b h5).1 =
      λ r e v. subst (λ (x : Option (List ℕ) × H5Struct). Window stream acked x.1) (sym e) v in
    elim (List-cases h5.rel) [
      | inl e ↦ to _ (rel-nil b h5 e) (send_ack-Window b stream acked h5 w)
      | inr (skb, skbs, e) ↦ elim (Bool-cases (ltb (length h5.unack) h5_txwinsize)) [
        | inr full ↦ to _ (rel-full b skb skbs h5 e full) (send_ack-Window b stream acked h5 w)
        | inl gap ↦
            let fit : All IsRel (skb ∷ skbs) = subst (λ r. All IsRel r) e w.rel_fit in
            elim (made b skb.bytes skb.pkt_type true h5 fit.0) [
              | inl m ↦
                  to _ (rel-missing b skb skbs h5 e gap m) (
                    send_ack-Window b stream acked (answered h5)
                      (answered-Window stream acked h5 w))
              | inr (n, m) ↦
                  to _ (rel-sent b skb skbs h5 n e gap m)
                    (sent-Window stream acked skb skbs h5 w e (ground (arith, gap)))
            ]
      ]
    ]

unrel-nil : (b : ℕ → ℕ) (h5 : H5Struct) → h5.unrel ≡ [] → h5_dequeue b h5 ≡ send_rel b h5
unfolding h5_dequeue
unrel-nil b h5 e = ground (arith, e)

unrel-missing :
    (b : ℕ → ℕ) (skb : Pkt) (skbs : List Pkt) (h5 : H5Struct)
    → h5.unrel ≡ skb ∷ skbs
    → h5_prepare_pkt b skb.bytes skb.pkt_type h5 ≡ (none, answered h5)
    → h5_dequeue b h5 ≡ send_rel b (answered h5)
unfolding h5_dequeue
unrel-missing b skb skbs h5 e m = ground (arith, e, m)

unrel-sent :
    (b : ℕ → ℕ) (skb : Pkt) (skbs : List Pkt) (h5 : H5Struct) (n : List ℕ)
    → h5.unrel ≡ skb ∷ skbs
    → h5_prepare_pkt b skb.bytes skb.pkt_type h5 ≡ (some n, numbered false (answered h5))
    → h5_dequeue b h5 ≡ (some n, record (numbered false (answered h5)) { unrel = skbs })
unfolding h5_dequeue
unrel-sent b skb skbs h5 n e m = ground (arith, e, m)

left-Window :
    (stream acked skbs : List Pkt) (h5 : H5Struct)
    → Window stream acked h5
    → All IsUnrel skbs
    → Window stream acked (record h5 { unrel = skbs })
left-Window stream acked skbs h5 w fit = record {
  split = w.split;
  number = w.number;
  small = w.small;
  rel_fit = w.rel_fit;
  unack_fit = w.unack_fit;
  unrel_fit = fit;
}

pub h5_dequeue-Window :
    (b : ℕ → ℕ) (stream acked : List Pkt) (h5 : H5Struct)
    → Window stream acked h5
    → Window stream acked (h5_dequeue b h5).1
h5_dequeue-Window b stream acked h5 w =
    let to : (r : Option (List ℕ) × H5Struct)
        → h5_dequeue b h5 ≡ r
        → Window stream acked r.1
        → Window stream acked (h5_dequeue b h5).1 =
      λ r e v. subst (λ (x : Option (List ℕ) × H5Struct). Window stream acked x.1) (sym e) v in
    elim (List-cases h5.unrel) [
      | inl e ↦ to _ (unrel-nil b h5 e) (send_rel-Window b stream acked h5 w)
      | inr (skb, skbs, e) ↦
          let fit : All IsUnrel (skb ∷ skbs) = subst (λ r. All IsUnrel r) e w.unrel_fit in
          elim (made b skb.bytes skb.pkt_type false h5 fit.0) [
            | inl m ↦
                to _ (unrel-missing b skb skbs h5 e m)
                  (send_rel-Window b stream acked (answered h5) (answered-Window stream acked h5 w))
            | inr (n, m) ↦ to _ (unrel-sent b skb skbs h5 n e m) (
                left-Window stream acked skbs (numbered false (answered h5))
                  (unnumbered-Window stream acked h5 w) fit.1)
          ]
    ]
