-- ===== src/Driver/Window/Cull.antt =====
-- `h5_pkt_cull` of hci_rtk_h5.c: which packets a number acknowledges.
use br_external.Prelude.{
  ℕ, zero, suc, ◌+◌, ◌%◌, ◌≤◌, ◌≡◌, ◌≢◌, ◌⊎◌, inl, inr, refl, sym, ap, ◌∙◌, subst, arith, List, [],
  ◌∷◌, ◌++◌, append_assoc, append-nil, length, length-append, take, drop, length-take,
  length-drop_add, All,
}
use br_external.Driver.State.{H5Struct, Pkt}
use br_external.Driver.Queues.{to_be_removed, h5_pkt_cull}
use br_external.Driver.Window.{Window, IsRel}

-- The last of the numbers, or one before it.
last_or_before : (j n : ℕ) → j ≤ suc n → (j ≡ suc n) ⊎ (j ≤ n)
last_or_before j n h = grind arith

to_be_removed-cong : (n a b r : ℕ) → a ≡ b → to_be_removed n a r ≡ to_be_removed n b r
to_be_removed-cong n a b r e = rw e

-- With at most seven numbers in a row: the loop finds the number, if it is one of them.
pub to_be_removed_lem :
    (n t r j : ℕ) → n ≤ 7 → j ≤ n → r ≡ (t + j) % 8 → to_be_removed n ((t + n) % 8) r ≡ j
unfolding to_be_removed
to_be_removed_lem zero t r j few within e = omega arith
to_be_removed_lem (suc n) t r j few within e =
    let next : ((t + suc n) % 8 + 7) % 8 ≡ (t + n) % 8 = omega arith in
    let rest = to_be_removed-cong n (((t + suc n) % 8 + 7) % 8) ((t + n) % 8) r next in
    elim (last_or_before j n within) [
      | inl last ↦ ground (arith, e, last)
      | inr before ↦
          let ih = to_be_removed_lem n t r j (omega arith) before e in
          let other : r ≢ (t + suc n) % 8 = λ same. omega (arith, e, same, before, few) in
          ground (arith, rest, ih, other)
    ]

to_be_removed-le : (n seq r : ℕ) → to_be_removed n seq r ≤ n
unfolding to_be_removed
to_be_removed-le zero seq r = omega arith
to_be_removed-le (suc n) seq r = let ih = to_be_removed-le n ((seq + 7) % 8) r in ground (arith, ih)

pub take-drop {ℓ} : {A : Type ℓ} (k : ℕ) (xs : List A) → take k xs ++ drop k xs ≡ xs
take-drop zero xs = refl
take-drop (suc k) [] = refl
take-drop (suc k) (x ∷ xs) = ap (λ t. x ∷ t) (take-drop k xs)

All-drop {ℓ} : {A : Type ℓ} (P : A → Type 0) (k : ℕ) (xs : List A) → All P xs → All P (drop k xs)
All-drop P zero xs a = a
All-drop P (suc k) [] a = tt
All-drop P (suc k) (x ∷ xs) a = All-drop P k xs a.1

-- The first packets of the queue go over to those that are acknowledged.
pub cull-Window :
    (stream acked : List Pkt) (h5 : H5Struct)
    → Window stream acked h5
    → Window stream
        (acked ++ take (to_be_removed (length h5.unack) h5.msgq_txseq h5.rxack) h5.unack)
        (h5_pkt_cull h5)
unfolding h5_pkt_cull
cull-Window stream acked h5 w =
    let k = to_be_removed (length h5.unack) h5.msgq_txseq h5.rxack in
    let few = to_be_removed-le (length h5.unack) h5.msgq_txseq h5.rxack in
    let gone = take k h5.unack in
    let left = drop k h5.unack in
    let whole : gone ++ left ≡ h5.unack = take-drop k h5.unack in
    let split : stream ≡ (acked ++ gone) ++ (left ++ h5.rel) =
      w.split
      ∙ ap (λ u. acked ++ (u ++ h5.rel)) (sym whole)
      ∙ ap (λ u. acked ++ u) (append_assoc gone left h5.rel)
      ∙ sym (append_assoc acked gone (left ++ h5.rel)) in
    let counted : length (acked ++ gone) + length left ≡ length acked + length h5.unack = omega (
      arith,
      length-append acked gone,
      length-take k h5.unack few,
      length-drop_add k h5.unack few,
    ) in
    record {
      split = split;
      number = w.number ∙ ap (λ n. n % 8) (sym counted);
      small = omega (arith, w.small, length-drop_add k h5.unack few);
      rel_fit = w.rel_fit;
      unack_fit = All-drop IsRel k h5.unack w.unack_fit;
      unrel_fit = w.unrel_fit;
    }

-- In a window with at most four packets that are not acknowledged, where the controller
-- acknowledges the first `j` of them, by the number of the packet that it expects next, modulo 8:
-- exactly these are taken out of the queue, in order, and they are the ones that the stream goes on
-- with behind those acknowledged before.
pub h5_pkt_cull-acked :
    (stream acked : List Pkt) (h5 : H5Struct) (j : ℕ)
    → Window stream acked h5
    → j ≤ length h5.unack
    → h5.rxack ≡ (length acked + j) % 8
    → ((h5_pkt_cull h5).unack ≡ drop j h5.unack)
      × Window stream (acked ++ take j h5.unack) (h5_pkt_cull h5)
unfolding h5_pkt_cull
h5_pkt_cull-acked stream acked h5 j w within e =
    let found : to_be_removed (length h5.unack) h5.msgq_txseq h5.rxack ≡ j =
      to_be_removed-cong (length h5.unack) h5.msgq_txseq ((length acked + length h5.unack) % 8)
        h5.rxack w.number
      ∙ to_be_removed_lem (length h5.unack) (length acked) h5.rxack j (omega (arith, w.small))
          within e in
    (
      ap (λ k. drop k h5.unack) found,
      subst (λ k. Window stream (acked ++ take k h5.unack) (h5_pkt_cull h5)) found
          (cull-Window stream acked h5 w),
    )

to_be_removed-none :
    (n t r : ℕ) → ((j : ℕ) → j ≤ n → r ≢ (t + j) % 8) → to_be_removed n ((t + n) % 8) r ≡ 0
unfolding to_be_removed
to_be_removed-none zero t r h = refl
to_be_removed-none (suc n) t r h =
    let next : ((t + suc n) % 8 + 7) % 8 ≡ (t + n) % 8 = omega arith in
    let rest = to_be_removed-cong n (((t + suc n) % 8 + 7) % 8) ((t + n) % 8) r next in
    let ih = to_be_removed-none n t r (λ j le. h j (omega (arith, le))) in
    let other : r ≢ (t + suc n) % 8 = h (suc n) (omega arith) in ground (arith, rest, ih, other)

-- A number that acknowledges none of the packets that wait, nor is the one before them: nothing is
-- taken out, and the window is as it was.
pub h5_pkt_cull-unknown :
    (stream acked : List Pkt) (h5 : H5Struct)
    → Window stream acked h5
    → ((j : ℕ) → j ≤ length h5.unack → h5.rxack ≢ (length acked + j) % 8)
    → ((h5_pkt_cull h5).unack ≡ h5.unack) × Window stream acked (h5_pkt_cull h5)
unfolding h5_pkt_cull
h5_pkt_cull-unknown stream acked h5 w unknown =
    let found : to_be_removed (length h5.unack) h5.msgq_txseq h5.rxack ≡ 0 =
      to_be_removed-cong (length h5.unack) h5.msgq_txseq ((length acked + length h5.unack) % 8)
        h5.rxack w.number
      ∙ to_be_removed-none (length h5.unack) (length acked) h5.rxack unknown in
    (
      ap (λ k. drop k h5.unack) found,
      subst (λ a. Window stream a (h5_pkt_cull h5))
          (ap (λ k. acked ++ take k h5.unack) found ∙ append-nil acked)
          (cull-Window stream acked h5 w),
    )
