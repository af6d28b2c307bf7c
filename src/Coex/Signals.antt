-- ===== src/Coex/Signals.antt =====
-- ACL data in rtk_coex.c: what is counted, the L2CAP signals, and the works that handle the nodes;
-- opening and closing.
pub mod Pooled
pub mod Drained
use br_external.Prelude.{
  ℕ, zero, suc, ◌+◌, ◌*◌, ◌/◌, ◌%◌, Bool, true, false, not, ◌&&◌, ◌||◌, if◌then◌else◌, ltb, ◌==◌,
  Option, none, some, List, [], ◌∷◌, ◌++◌, length, get_elem?, get_or, take, drop,
}
use br_external.Coex.State.{
  Coex, Kernel, Pools, Frags, HciEv, L2Buff, l2_max_subsec_len, profile_a2dp, profile_pan, no_bits,
}
use br_external.Coex.Hci.{Hci}
use br_external.Coex.Counters.{is_profile_connected}
use br_external.Coex.Notify.{
  find_connection_by_handle, rtk_vendor_cmd_to_fw, hci_vendor_set_profile_report_command,
}
use br_external.Coex.Channels.{handle_l2cap_con_req, handle_l2cap_con_rsp, handle_l2cap_discon_req}
use br_external.Coex.Media.{ask, packets_count}
use br_external.Coex.Links.{u8_at, u16_at}
use br_external.Coex.Events.{rtk_parse_event_data}
use br_external.Coex.Pools.{rtl_l2_node_get, rtl_l2_node_to_used, overwrite}

-- The node holds 128 bytes; no case reads past the first twenty.
unfoldable pub rtl_process_l2_sig : Hci → L2Buff → Coex → Coex
unfolding handle_l2cap_con_req handle_l2cap_con_rsp handle_l2cap_discon_req
rtl_process_l2_sig hci l2 s =
    let h = u16_at l2.bytes 0 % 4096 in
    let code = u8_at l2.bytes 8 in
    let first = u16_at l2.bytes 12 in
    let second = u16_at l2.bytes 14 in
    if code == hci.l2cap_conn_req
    then (handle_l2cap_con_req h first second l2.out s).0
    else if code == hci.l2cap_conn_rsp
    then (handle_l2cap_con_rsp h first second l2.out (u16_at l2.bytes 16) s).0
    else if code == hci.l2cap_disconn_req
    then (handle_l2cap_discon_req h first second l2.out s).0
    else s

unfoldable pub kept_signal : List ℕ → Bool → L2Buff → L2Buff
kept_signal buffer direction l2 =
    let len = length buffer % 65536 in
    record l2 {
      bytes = overwrite (take len (take l2_max_subsec_len buffer)) l2.bytes;
      out = direction;
    }

-- A signal that is looked at is copied into a node, if there is one.
unfoldable pub keep_signal : Hci → List ℕ → Bool → Coex → Coex
unfolding rtl_l2_node_get rtl_l2_node_to_used kept_signal
keep_signal hci buffer direction s =
    let code = u8_at buffer 8 in
    let (node, p) = rtl_l2_node_get s.pools in
    let s' = record s { outside = s.outside || ltb (length buffer) 9 } in
    if code == hci.l2cap_conn_req || code == hci.l2cap_conn_rsp || code == hci.l2cap_disconn_req
    then elim node [
      | none ↦ s'
      | some l2 ↦ record s' {
        pools = record (rtl_l2_node_to_used (kept_signal buffer direction l2) p) { l2_work = true };
      }
    ]
    else s'

-- Continued packets are not counted.
unfoldable pub rtl_l2_data_process : Hci → List ℕ → Bool → Coex → Coex
unfolding find_connection_by_handle keep_signal packets_count ask is_profile_connected
rtl_l2_data_process hci buffer direction s =
    let h = u16_at buffer 0 % 4096 in
    let flag = u16_at buffer 0 / 4096 in
    let channel_id = u16_at buffer 6 in
    let s' = record s { outside = s.outside || ltb (length buffer) 8 } in
    elim (find_connection_by_handle s.conn_hash h) [
      | none ↦ s'
      | some place ↦
          let counts =
            ask place
              (λ c. is_profile_connected c profile_a2dp || is_profile_connected c profile_pan) s in
          if channel_id == 0x0001
          then keep_signal hci buffer direction s'
          else if not (flag == 0x01) && counts
          then packets_count h channel_id (u16_at buffer 4) direction (drop 8 buffer) s'
          else s'
    ]

-- `rtk_btcoex_parse_l2cap_data_tx` and `rtk_btcoex_parse_l2cap_data_rx`
unfoldable pub rtk_btcoex_parse_l2cap_data : Hci → List ℕ → Bool → Coex → Coex
unfolding rtl_l2_data_process
rtk_btcoex_parse_l2cap_data hci buffer direction s =
    if s.running then rtl_l2_data_process hci buffer direction s else s

-- The works: the nodes in use are handled one by one and given back, on fuel.
unfoldable pub l2_loop : ℕ → Hci → Coex → Coex
l2_loop zero hci s = s
l2_loop (suc fuel) hci s = elim s.pools.l2_used_list [
  | [] ↦ s
  | l2 ∷ l2s ↦
      let s1 = record s { pools = record s.pools { l2_used_list = l2s } } in
      let s2 = rtl_process_l2_sig hci l2 s1 in
      l2_loop fuel hci
        (record s2 { pools = record s2.pools { l2_free_list = s2.pools.l2_free_list ++ l2 ∷ [] } })
]

unfoldable pub rtl_l2_work : Hci → Coex → Coex
unfolding l2_loop
rtl_l2_work hci s =
    l2_loop (length s.pools.l2_used_list) hci
      (record s { pools = record s.pools { l2_work = false } })

unfoldable pub ev_loop : ℕ → Hci → Coex → Coex
ev_loop zero hci s = s
ev_loop (suc fuel) hci s = elim s.pools.ev_used_list [
  | [] ↦ s
  | ev ∷ evs ↦
      let s1 = record s { pools = record s.pools { ev_used_list = evs } } in
      let s2 = rtk_parse_event_data hci ev.bytes s1 in
      ev_loop fuel hci
        (record s2 { pools = record s2.pools { ev_free_list = s2.pools.ev_free_list ++ ev ∷ [] } })
]

unfoldable pub rtl_ev_work : Hci → Coex → Coex
unfolding ev_loop
rtl_ev_work hci s =
    ev_loop (length s.pools.ev_used_list) hci
      (record s { pools = record s.pools { fw_work = false } })

-- The length of an empty list of handles.
unfoldable pub check_profileinfo_cmd : Coex → Coex
unfolding rtk_vendor_cmd_to_fw
check_profileinfo_cmd s = rtk_vendor_cmd_to_fw hci_vendor_set_profile_report_command 1 (0 ∷ []) s

abbrev pub init_profile_hash : Coex → Coex
init_profile_hash s = record s { profile_list = [] }

abbrev pub init_connection_hash : Coex → Coex
init_connection_hash s = record s { conn_hash = [] }

-- The works of every connection are cancelled before its block is freed.
abbrev pub flush_connection_hash : Coex → Coex
flush_connection_hash s = record s { conn_hash = [] }

abbrev pub flush_profile_hash : Coex → Coex
flush_profile_hash s = record s { profile_list = [] }

abbrev pub rtl_free_frags : Coex → Coex
rtl_free_frags s = record s { frags = record s.frags { elen = 0; tbuff = none } }

abbrev pub opened : Bool → Coex → Coex
opened hdev s = record (init_connection_hash (init_profile_hash s)) {
  running = true;
  frags = record s.frags { expect = 0; elen = 0; tbuff = none };
  pools = record s.pools { fw_work = false; l2_work = false };
  kernel = record s.kernel { hdev = hdev };
}

unfoldable pub rtk_btcoex_open : Bool → Coex → Coex
unfolding check_profileinfo_cmd
rtk_btcoex_open hdev s = if s.running then s else check_profileinfo_cmd (opened hdev s)

unfoldable pub rtk_btcoex_close : Coex → Coex
rtk_btcoex_close s =
    if not s.running
    then s
    else record (rtl_free_frags (flush_profile_hash (flush_connection_hash s))) {
      running = false;
      profile_status = no_bits;
      pools = record s.pools { fw_work = false; l2_work = false };
      profileinfo_cmd = false;
    }
