-- ===== src/Coex/Signals/Drained.antt =====
-- The works of rtk_coex.c empty their queues, and no node is lost.
use br_external.Prelude.{
  ℕ, zero, suc, ◌≡◌, ◌≤◌, refl, ap, ◌∙◌, arith, false, List, [], ◌∷◌, ◌++◌, append_assoc,
  append-nil, length,
}
use br_external.Coex.State.{Coex, Pools, HciEv, L2Buff}
use br_external.Coex.Hci.{Hci}
use br_external.Coex.Events.{rtk_parse_event_data}
use br_external.Coex.Signals.{rtl_process_l2_sig, ev_loop, l2_loop, rtl_ev_work, rtl_l2_work}
use br_external.Coex.Signals.Pooled.{rtl_process_l2_sig-pools}
use br_external.Coex.Events.Pooled.{rtk_parse_event_data-pools}

-- All nodes of the one list are behind those of the other, and the pools are otherwise as before.
abbrev EvDrained : Pools → Pools → Type 0
EvDrained p q = q ≡ record p { ev_used_list = []; ev_free_list = p.ev_free_list ++ p.ev_used_list }

ev_loop-EvDrained :
    (fuel : ℕ) (hci : Hci) (used : List HciEv) (s : Coex)
    → s.pools.ev_used_list ≡ used
    → length used ≤ fuel
    → EvDrained s.pools (ev_loop fuel hci s).pools
unfolding ev_loop
ev_loop-EvDrained zero hci [] s e enough = ground (arith, e, append-nil s.pools.ev_free_list)
ev_loop-EvDrained zero hci (ev ∷ evs) s e enough = absurd (omega arith)
ev_loop-EvDrained (suc fuel) hci [] s e enough = ground (arith, e, append-nil s.pools.ev_free_list)
ev_loop-EvDrained (suc fuel) hci (ev ∷ evs) s e enough =
    let s1 : Coex = record s { pools = record s.pools { ev_used_list = evs } } in
    let s2 = rtk_parse_event_data hci ev.bytes s1 in
    let s3 : Coex = record s2 {
      pools = record s2.pools { ev_free_list = s2.pools.ev_free_list ++ ev ∷ [] };
    } in
    let same : s2.pools ≡ s1.pools = rtk_parse_event_data-pools hci ev.bytes s1 in
    let ih =
      ev_loop-EvDrained fuel hci evs s3 (ap (λ (q : Pools). q.ev_used_list) same) (omega arith) in
    ground (arith, e, same, ih, append_assoc s.pools.ev_free_list (ev ∷ []) evs)

abbrev L2Drained : Pools → Pools → Type 0
L2Drained p q = q ≡ record p { l2_used_list = []; l2_free_list = p.l2_free_list ++ p.l2_used_list }

l2_loop-L2Drained :
    (fuel : ℕ) (hci : Hci) (used : List L2Buff) (s : Coex)
    → s.pools.l2_used_list ≡ used
    → length used ≤ fuel
    → L2Drained s.pools (l2_loop fuel hci s).pools
unfolding l2_loop
l2_loop-L2Drained zero hci [] s e enough = ground (arith, e, append-nil s.pools.l2_free_list)
l2_loop-L2Drained zero hci (l2 ∷ l2s) s e enough = absurd (omega arith)
l2_loop-L2Drained (suc fuel) hci [] s e enough = ground (arith, e, append-nil s.pools.l2_free_list)
l2_loop-L2Drained (suc fuel) hci (l2 ∷ l2s) s e enough =
    let s1 : Coex = record s { pools = record s.pools { l2_used_list = l2s } } in
    let s2 = rtl_process_l2_sig hci l2 s1 in
    let s3 : Coex = record s2 {
      pools = record s2.pools { l2_free_list = s2.pools.l2_free_list ++ l2 ∷ [] };
    } in
    let same : s2.pools ≡ s1.pools = rtl_process_l2_sig-pools hci l2 s1 in
    let ih =
      l2_loop-L2Drained fuel hci l2s s3 (ap (λ (q : Pools). q.l2_used_list) same) (omega arith) in
    ground (arith, e, same, ih, append_assoc s.pools.l2_free_list (l2 ∷ []) l2s)

-- The two works, run one after the other from any state: both queues are empty afterwards, and every
-- node that was in them is behind the free ones, in the order of the queue, whatever its bytes are.
-- The loops need no more rounds than there were nodes.
pub rtl_l2_work-drained :
    (hci : Hci) (s : Coex)
    → (rtl_l2_work hci (rtl_ev_work hci s)).pools ≡ record s.pools {
      ev_used_list = [];
      ev_free_list = s.pools.ev_free_list ++ s.pools.ev_used_list;
      l2_used_list = [];
      l2_free_list = s.pools.l2_free_list ++ s.pools.l2_used_list;
      fw_work = false;
      l2_work = false;
    }
unfolding rtl_ev_work rtl_l2_work
rtl_l2_work-drained hci s =
    let s1 : Coex = record s { pools = record s.pools { fw_work = false } } in
    let t = ev_loop (length s.pools.ev_used_list) hci s1 in
    let e =
      ev_loop-EvDrained (length s.pools.ev_used_list) hci s.pools.ev_used_list s1 refl
        (omega arith) in
    let t1 : Coex = record t { pools = record t.pools { l2_work = false } } in
    let l =
      l2_loop-L2Drained (length t.pools.l2_used_list) hci t.pools.l2_used_list t1 refl
        (omega arith) in
    l
    ∙ ap
        (λ (q : Pools). record q {
          l2_work = false;
          l2_used_list = [];
          l2_free_list = q.l2_free_list ++ q.l2_used_list;
        })
        e
