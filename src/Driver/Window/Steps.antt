-- ===== src/Driver/Window/Steps.antt =====
-- What each call in hci_rtk_h5.c does to the window.
use br_external.Prelude.{
  ℕ, suc, ◌+◌, ◌*◌, ◌%◌, ◌<◌, ◌≡◌, sym, ap, ◌∙◌, subst, arith, true, false, if◌then◌else◌,
  Bool-cases, ltb, none, some, Option-cases, List, [], ◌∷◌, ◌++◌, append_assoc, append-nil, length,
  All, All-append, inl, inr,
}
use br_external.Driver.State.{H5Struct, Pkt}
use br_external.Driver.Queues.{queue_of, h5_enqueue, roll_back, h5_timed_event}
use br_external.Driver.Window.{Window, IsRel, IsUnrel}

-- The reliable packets that a call accepts.
unfoldable pub accepted : Pkt → List Pkt
unfolding queue_of
accepted skb =
    if ltb 0xFFF (length skb.bytes)
    then []
    else elim (queue_of skb.pkt_type) [ none ↦ [] | some is_rel ↦ if is_rel then skb ∷ [] else [] ]

appended :
    (stream acked unack rel new : List Pkt)
    → stream ≡ acked ++ (unack ++ rel)
    → stream ++ new ≡ acked ++ (unack ++ (rel ++ new))
appended stream acked unack rel new e =
    ap (λ t. t ++ new) e
    ∙ append_assoc acked (unack ++ rel) new
    ∙ ap (λ t. acked ++ t) (append_assoc unack rel new)

moved :
    (s s' acked : List Pkt) (h h' : H5Struct)
    → s ≡ s'
    → h ≡ h'
    → Window s acked h
    → Window s' acked h'
moved s s' acked h h' e f w = subst (λ x. Window x acked h') e (subst (λ y. Window s acked y) f w)

same :
    (stream acked : List Pkt) (h h' : H5Struct) (new : List Pkt)
    → new ≡ []
    → h ≡ h'
    → Window stream acked h
    → Window (stream ++ new) acked h'
same stream acked h h' new e f w =
    moved stream (stream ++ new) acked h h'
      (sym (append-nil stream) ∙ ap (λ t. stream ++ t) (sym e)) f w

pub h5_enqueue-Window :
    (stream acked : List Pkt) (skb : Pkt) (h5 : H5Struct)
    → Window stream acked h5
    → Window (stream ++ accepted skb) acked (h5_enqueue skb h5)
unfolding h5_enqueue accepted
h5_enqueue-Window stream acked skb h5 w = elim (Bool-cases (ltb 0xFFF (length skb.bytes))) [
  | inl long ↦ same stream acked h5 _ _ (ground (arith, long)) (ground (arith, long)) w
  | inr short ↦ elim (Option-cases (queue_of skb.pkt_type)) [
    | inl unknown ↦
        same stream acked h5 _ _ (ground (arith, short, unknown)) (ground (arith, short, unknown)) w
    | inr (true, known) ↦
        moved (stream ++ skb ∷ []) _ acked (record h5 { rel = h5.rel ++ skb ∷ [] }) _
          (ground (arith, short, known)) (ground (arith, short, known))
          (record {
            split = appended stream acked h5.unack h5.rel (skb ∷ []) w.split;
            number = w.number;
            small = w.small;
            rel_fit = All-append IsRel h5.rel (skb ∷ []) w.rel_fit (known, tt);
            unack_fit = w.unack_fit;
            unrel_fit = w.unrel_fit;
          })
    | inr (false, known) ↦
        same stream acked (record h5 { unrel = h5.unrel ++ skb ∷ [] }) _ _
          (ground (arith, short, known)) (ground (arith, short, known))
          (record {
            split = w.split;
            number = w.number;
            small = w.small;
            rel_fit = w.rel_fit;
            unack_fit = w.unack_fit;
            unrel_fit = All-append IsUnrel h5.unrel (skb ∷ []) w.unrel_fit (known, tt);
          })
  ]
]

roll_back_lem :
    (skbs rel : List Pkt) (seq : ℕ)
    → seq < 8
    → roll_back skbs rel seq ≡ (skbs ++ rel, (seq + 7 * length skbs) % 8)
unfolding roll_back
roll_back_lem [] rel seq small = ap (λ n. (rel, n)) (omega arith)
roll_back_lem (skb ∷ skbs) rel seq small =
    let ih = roll_back_lem skbs rel seq small in
    let e : ((seq + 7 * length skbs) % 8 + 7) % 8 ≡ (seq + 7 * suc (length skbs)) % 8 =
      omega arith in
    ap (λ (r : List Pkt × ℕ). (skb ∷ r.0, (r.1 + 7) % 8)) ih ∙ ap (λ n. (skb ∷ (skbs ++ rel), n)) e

-- The timer gives the numbers back, so that the same packets get the same numbers again.
pub h5_timed_event-Window :
    (stream acked : List Pkt) (h5 : H5Struct)
    → Window stream acked h5
    → Window stream acked (h5_timed_event h5)
unfolding h5_timed_event
h5_timed_event-Window stream acked h5 w =
    let r = roll_back_lem h5.unack h5.rel h5.msgq_txseq (omega (arith, w.number)) in
    record {
      split = w.split ∙ ap (λ (q : List Pkt × ℕ). acked ++ q.0) (sym r);
      number = ap (λ (q : List Pkt × ℕ). q.1) r ∙ omega (arith, w.number, w.small);
      small = omega arith;
      rel_fit =
          subst (λ (q : List Pkt × ℕ). All IsRel q.0) (sym r)
            (All-append IsRel h5.unack h5.rel w.unack_fit w.rel_fit);
      unack_fit = tt;
      unrel_fit = w.unrel_fit;
    }
