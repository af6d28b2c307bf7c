-- ===== src/Coex/Events.antt =====
-- The HCI commands and events that rtk_coex.c follows.
pub mod Valid
pub mod Pooled
pub mod Disconnect
use br_external.Prelude.{
  ℕ, zero, suc, ◌+◌, ◌*◌, ◌%◌, Bool, true, false, not, ◌&&◌, ◌||◌, if◌then◌else◌, ◌==◌, Option,
  none, some, List, [], ◌∷◌, ◌++◌, length, get_elem?, get_or, set, bit, remove_at,
}
use br_external.Coex.State.{
  Conn, Coex, Kernel, ProfInfo, LinkType, kmalloc, zero_conn, profile_sco, profile_hid,
  profile_sink, a2dp_media,
}
use br_external.Coex.State.LinkType.{l2cap, sco, le, other_type}
use br_external.Coex.Counters.{is_profile_connected, disconn_profile, reset}
use br_external.Coex.Notify.{
  rtk_notify_profileinfo_to_fw, find_connection_by_handle, update_profile_connection,
  update_hid_active_state, hci_vendor_set_profile_report_command,
}
use br_external.Coex.Hci.{Hci}
use br_external.Coex.Links.{
  u8_at, u16_at, fresh_conn, add_connection, connection_for, reset_at, connected_as,
  rtk_handle_connection_complete_evt, le_connected, rtk_handle_le_connection_complete_evt,
  rtk_handle_le_meta_evt, is_media, drop_channel, drop_channels, disconn_acl, link_ends,
  delete_connection_from_hash, disconnected, rtk_handle_disconnect_complete_evt,
  hci_ev_le_conn_complete, hci_ev_le_conn_update_complete, hci_ev_le_enhanced_conn_complete,
}

abbrev pub hci_op_periodic_inq : ℕ
hci_op_periodic_inq = 0x0403

abbrev pub hci_ev_le_meta : ℕ
hci_ev_le_meta = 0x3e

abbrev pub hci_ev_vendor_specific : ℕ
hci_ev_vendor_specific = 0xff

-- A command has the three bytes of its header at least.
unfoldable pub rtk_btcoex_parse_cmd : Hci → List ℕ → Coex → Coex
rtk_btcoex_parse_cmd hci buffer s =
    let opcode = u16_at buffer 0 in
    if not s.running
    then s
    else if opcode == hci.op_inquiry || opcode == hci_op_periodic_inq
    then record s { isinquirying = true }
    else if opcode == hci.op_inquiry_cancel || opcode == hci.op_exit_periodic_inq
    then record s { isinquirying = false }
    else if opcode == hci.op_accept_conn_req
    then record s { ispaging = true }
    else s

-- `rtk_handle_inquiry_complete`, `rtk_handle_pin_code_req` and `rtk_handle_io_capa_req`,
-- `rtk_handle_auth_request` and `rtk_handle_link_key_notify`
unfoldable pub rtk_handle_inquiry_complete : Coex → Coex
rtk_handle_inquiry_complete s = record s { isinquirying = false }

unfoldable pub rtk_handle_pin_code_req : Coex → Coex
rtk_handle_pin_code_req s = record s { ispairing = true }

unfoldable pub rtk_handle_auth_request : Coex → Coex
rtk_handle_auth_request s = record s { ispairing = false }

-- Behind the event's code and length: a status, the handle, a mode, the interval.
unfoldable pub rtk_handle_mode_change_evt : List ℕ → Coex → Coex
unfolding update_hid_active_state
rtk_handle_mode_change_evt bytes s = update_hid_active_state (u16_at bytes 3) (u16_at bytes 6) s

-- `p` moves on where a test reads a byte.
unfoldable pub rtk_handle_cmd_complete_evt : Hci → List ℕ → Coex → Coex
rtk_handle_cmd_complete_evt hci bytes s =
    let opcode = u16_at bytes 3 in
    let periodic = opcode == hci_op_periodic_inq in
    let p = if periodic then 6 else 5 in
    let s1 =
      if periodic && not (u8_at bytes 5 == 0) then record s { isinquirying = false } else s in
    let version = opcode == hci.op_read_local_version in
    let read = version && u8_at bytes p == 0 in
    let p' = if read then p + 9 else if version then p + 1 else p in
    let s2 =
      if read
      then record s1 { hci_reversion = u16_at bytes (p + 2); lmp_subversion = u16_at bytes (p + 7) }
      else s1 in
    if opcode == hci_vendor_set_profile_report_command && not (u8_at bytes p' == 0x01)
    then record s2 { profileinfo_cmd = true }
    else s2

unfoldable pub rtk_handle_cmd_status_evt : Hci → List ℕ → Coex → Coex
rtk_handle_cmd_status_evt hci bytes s =
    let status = u8_at bytes 2 in
    let opcode = u16_at bytes 4 in
    let s' =
      if opcode == hci.op_inquiry && not (status == 0)
      then record s { isinquirying = false }
      else s in
    if opcode == hci.op_create_conn && status == 0 then record s' { ispaging = true } else s'

-- A vendor's event is only written to the log.
unfoldable pub rtk_parse_event_data : Hci → List ℕ → Coex → Coex
unfolding rtk_handle_inquiry_complete rtk_handle_pin_code_req rtk_handle_auth_request
    rtk_handle_mode_change_evt rtk_handle_cmd_complete_evt rtk_handle_cmd_status_evt
    rtk_handle_connection_complete_evt rtk_handle_disconnect_complete_evt rtk_handle_le_meta_evt
    link_ends
rtk_parse_event_data hci bytes s =
    let event_code = u8_at bytes 0 in
    if event_code == hci.ev_inquiry_complete
    then rtk_handle_inquiry_complete s
    else if event_code == hci.ev_pin_code_req || event_code == hci.ev_io_capa_request
    then rtk_handle_pin_code_req s
    else if event_code == hci.ev_auth_complete || event_code == hci.ev_link_key_notify
    then rtk_handle_auth_request s
    else if event_code == hci.ev_mode_change
    then rtk_handle_mode_change_evt bytes s
    else if event_code == hci.ev_cmd_complete
    then rtk_handle_cmd_complete_evt hci bytes s
    else if event_code == hci.ev_cmd_status
    then rtk_handle_cmd_status_evt hci bytes s
    else if event_code == hci.ev_conn_complete || event_code == hci.ev_sync_conn_complete
    then rtk_handle_connection_complete_evt bytes s
    else if event_code == hci.ev_disconn_complete
    then rtk_handle_disconnect_complete_evt bytes s
    else if event_code == hci_ev_le_meta
    then rtk_handle_le_meta_evt bytes s
    else s
