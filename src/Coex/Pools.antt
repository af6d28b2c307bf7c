-- ===== src/Coex/Pools.antt =====
-- The pools of nodes in rtk_coex.c for events and L2CAP signals that wait to be handled.
use br_external.Prelude.{
  ℕ, zero, suc, Bool, true, false, not, ◌||◌, if◌then◌else◌, ltb, ◌==◌, Option, none, some, List,
  [], ◌∷◌, ◌++◌, length, take, drop, replicate,
}
use br_external.Coex.State.{
  HciEv, L2Buff, Pools, max_len_of_hci_ev, num_rtl_hci_ev, l2_max_subsec_len, l2_max_pkts,
}
use br_external.Coex.Hci.{Hci}
use br_external.Coex.Links.{
  u8_at, u16_at, hci_ev_le_conn_complete, hci_ev_le_conn_update_complete,
  hci_ev_le_enhanced_conn_complete,
}
use br_external.Coex.Events.{hci_op_periodic_inq, hci_ev_le_meta, hci_ev_vendor_specific}
use br_external.Coex.Notify.{hci_vendor_set_profile_report_command}

unfoldable pub ev_nodes : ℕ → List HciEv
ev_nodes zero = []
ev_nodes (suc n) =
    ev_nodes n ++ record { place = n; bytes = replicate max_len_of_hci_ev 0; len = 0 } ∷ []

unfoldable pub l2_nodes : ℕ → List L2Buff
l2_nodes zero = []
l2_nodes (suc n) =
    l2_nodes n ++ record { place = n; bytes = replicate l2_max_subsec_len 0; out = false } ∷ []

-- With the pages that `__get_free_pages` gives, or without.
unfoldable pub rtl_alloc_buff : Bool → Pools → Pools
unfolding ev_nodes l2_nodes
rtl_alloc_buff given p =
    if given
    then record p {
      buffers = true;
      ev_used_list = [];
      ev_free_list = ev_nodes num_rtl_hci_ev;
      l2_used_list = [];
      l2_free_list = l2_nodes l2_max_pkts;
    }
    else record p { ev_used_list = []; ev_free_list = []; l2_used_list = []; l2_free_list = [] }

unfoldable pub rtl_free_buff : Pools → Pools
rtl_free_buff p = record p {
  buffers = false;
  ev_used_list = [];
  ev_free_list = [];
  l2_used_list = [];
  l2_free_list = [];
}

unfoldable pub rtl_ev_node_get : Pools → Option HciEv × Pools
rtl_ev_node_get p = if not p.buffers then (none, p) else elim p.ev_free_list [
  | [] ↦ (none, p)
  | ev ∷ evs ↦ (some ev, record p { ev_free_list = evs })
]

unfoldable pub rtl_ev_node_to_used : HciEv → Pools → Pools
rtl_ev_node_to_used ev p = record p { ev_used_list = p.ev_used_list ++ ev ∷ [] }

unfoldable pub rtl_l2_node_get : Pools → Option L2Buff × Pools
rtl_l2_node_get p = if not p.buffers then (none, p) else elim p.l2_free_list [
  | [] ↦ (none, p)
  | l2 ∷ l2s ↦ (some l2, record p { l2_free_list = l2s })
]

unfoldable pub rtl_l2_node_to_used : L2Buff → Pools → Pools
rtl_l2_node_to_used l2 p = record p { l2_used_list = p.l2_used_list ++ l2 ∷ [] }

unfoldable pub cmd_cmplt_filter_out : Hci → List ℕ → Bool
cmd_cmplt_filter_out hci buf =
    let opcode = u16_at buf 3 in
    not (
      opcode == hci_op_periodic_inq
      || opcode == hci.op_read_local_version
      || opcode == hci_vendor_set_profile_report_command)

unfoldable pub cmd_status_filter_out : Hci → List ℕ → Bool
cmd_status_filter_out hci buf =
    let opcode = u16_at buf 4 in not (opcode == hci.op_inquiry || opcode == hci.op_create_conn)

unfoldable pub ev_filter_out : Hci → List ℕ → Bool
unfolding cmd_cmplt_filter_out cmd_status_filter_out
ev_filter_out hci buf =
    let code = u8_at buf 0 in
    let sub_event = u8_at buf 2 in
    if code == hci.ev_inquiry_complete
      || code == hci.ev_pin_code_req
      || code == hci.ev_io_capa_request
      || code == hci.ev_auth_complete
      || code == hci.ev_link_key_notify
      || code == hci.ev_mode_change
      || code == hci.ev_conn_complete
      || code == hci.ev_sync_conn_complete
      || code == hci.ev_disconn_complete
      || code == hci_ev_vendor_specific
    then false
    else if code == hci_ev_le_meta
    then not (
        sub_event == hci_ev_le_conn_complete
        || sub_event == hci_ev_le_enhanced_conn_complete
        || sub_event == hci_ev_le_conn_update_complete)
    else if code == hci.ev_cmd_complete
    then cmd_cmplt_filter_out hci buf
    else if code == hci.ev_cmd_status
    then cmd_status_filter_out hci buf
    else true

-- A `memcpy` to the start of a node.
abbrev pub overwrite : List ℕ → List ℕ → List ℕ
overwrite bytes old = bytes ++ drop (length bytes) old

-- A node holds the first 32 bytes of the event at most.
unfoldable pub stored : List ℕ → ℕ → HciEv → HciEv
stored s count ev =
    let n = if ltb max_len_of_hci_ev count then max_len_of_hci_ev else count in
    record ev { bytes = overwrite (take n s) ev.bytes; len = n }

unfoldable pub rtk_btcoex_evt_enqueue : Hci → List ℕ → ℕ → Pools → Pools
unfolding rtl_ev_node_get rtl_ev_node_to_used stored
rtk_btcoex_evt_enqueue hci s count p =
    let (node, p') = rtl_ev_node_get p in
    if ev_filter_out hci s then p else elim node [
      | none ↦ p'
      | some ev ↦ record (rtl_ev_node_to_used (stored s count ev) p') { fw_work = true }
    ]
