-- ===== src/Driver/Window/Complete.antt =====
-- A packet that is complete in hci_rtk_h5.c, and the transmit window.
use br_external.Prelude.{ℕ, sym, subst, option_cases, List, [], ◌++◌, append-nil, length, take}
use br_external.Coex.Hci.{Hci}
use br_external.Driver.State.{H5Struct, Pkt}
use br_external.Driver.Queues.{to_be_removed, acknowledged, passed_up, h5_complete_rx_pkt}
use br_external.Driver.Window.{Window}
use br_external.Driver.Window.Cull.{cull-Window}

-- The window at the same stream, with some more packets acknowledged.
abbrev pub Grown : List Pkt → List Pkt → H5Struct → Type 0
Grown stream acked h5 = (more : List Pkt) × Window stream (acked ++ more) h5

pub kept :
    (stream acked : List Pkt) (h5 : H5Struct) → Window stream acked h5 → Grown stream acked h5
kept stream acked h5 w = ([], subst (λ a. Window stream a h5) (sym (append-nil acked)) w)

pub h5_complete_rx_pkt-Window :
    (hci : Hci) (skb : List ℕ) (stream acked : List Pkt) (h5 : H5Struct)
    → Window stream acked h5
    → Grown stream acked (h5_complete_rx_pkt hci skb h5)
unfolding h5_complete_rx_pkt acknowledged
h5_complete_rx_pkt-Window hci skb stream acked h5 w =
    let noted : Window stream acked (acknowledged skb h5) = record {
      split = w.split;
      number = w.number;
      small = w.small;
      rel_fit = w.rel_fit;
      unack_fit = w.unack_fit;
      unrel_fit = w.unrel_fit;
    } in
    let noticed = acknowledged skb h5 in
    let more =
      take (to_be_removed (length noticed.unack) noticed.msgq_txseq noticed.rxack) noticed.unack in
    let v = cull-Window stream acked (acknowledged skb h5) noted in
    (
      more,
      option_cases (λ x. Window stream (acked ++ more) x) (passed_up skb) _ _
          (λ _. record {
            split = v.split;
            number = v.number;
            small = v.small;
            rel_fit = v.rel_fit;
            unack_fit = v.unack_fit;
            unrel_fit = v.unrel_fit;
          })
          (λ t _. record {
            split = v.split;
            number = v.number;
            small = v.small;
            rel_fit = v.rel_fit;
            unack_fit = v.unack_fit;
            unrel_fit = v.unrel_fit;
          }),
    )
