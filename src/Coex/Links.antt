-- ===== src/Coex/Links.antt =====
-- How connections come and go in rtk_coex.c: the events of connections, low energy and
-- disconnections.
pub mod Connected
pub mod Gone
use br_external.Prelude.{
  ℕ, ◌+◌, ◌*◌, ◌%◌, Bool, true, false, not, ◌&&◌, ◌||◌, if◌then◌else◌, ◌==◌, Option, none, some,
  List, [], ◌∷◌, ◌++◌, length, get_elem?, get_or, set, remove_at,
}
use br_external.Coex.State.{
  Conn, Coex, ProfInfo, LinkType, kmalloc, zero_conn, profile_sco, profile_hid, profile_sink,
}
use br_external.Coex.State.LinkType.{l2cap, sco, le, other_type}
use br_external.Coex.Counters.{is_profile_connected, disconn_profile, reset}
use br_external.Coex.Notify.{
  rtk_notify_profileinfo_to_fw, find_connection_by_handle, update_profile_connection,
  update_hid_active_state,
}

abbrev pub hci_ev_le_conn_complete : ℕ
hci_ev_le_conn_complete = 0x01

abbrev pub hci_ev_le_conn_update_complete : ℕ
hci_ev_le_conn_update_complete = 0x03

abbrev pub hci_ev_le_enhanced_conn_complete : ℕ
hci_ev_le_enhanced_conn_complete = 0x0a

-- `STREAM_TO_UINT16` at a place, and a byte. The bytes of a node are 32 (see `Pools`), and no
-- handler reads past them.
abbrev pub u8_at : List ℕ → ℕ → ℕ
u8_at bytes i = get_or bytes i 0

abbrev pub u16_at : List ℕ → ℕ → ℕ
u16_at bytes i = get_or bytes i 0 + get_or bytes (i + 1) 0 * 256

-- `allocate_connection_by_handle` and `add_connection_to_hash`: the works are not queued, and all
-- else but the handle is what the block held.
abbrev pub fresh_conn : ℕ → Conn → Conn
fresh_conn h block = record block {
  handle = h;
  a2dp_count_work = false;
  pan_count_work = false;
  hogp_count_work = false;
}

unfoldable pub add_connection : ℕ → Conn → Coex → Coex
add_connection h block s = record s { conn_hash = s.conn_hash ++ fresh_conn h block ∷ [] }

-- The place of the connection of a handle, a new one if there is none and `kmalloc` gives a block.
unfoldable pub connection_for : ℕ → Coex → Option ℕ × Coex
unfolding find_connection_by_handle add_connection
connection_for h s =
    let (block, blocks) = kmalloc zero_conn s.kernel.conn_blocks in
    let s' = record s { kernel = record s.kernel { conn_blocks = blocks } } in
    elim (find_connection_by_handle s.conn_hash h) [
      | some place ↦ (some place, s)
      | none ↦ elim block [
        | none ↦ (none, s')
        | some b ↦ (some (length s.conn_hash), add_connection h b s')
      ]
    ]

unfoldable pub reset_at : ℕ → LinkType → Coex → Coex
unfolding reset
reset_at place kind s = elim (get_elem? s.conn_hash place) [
  | none ↦ s
  | some c ↦ record s { conn_hash = set s.conn_hash place (reset kind c) }
]

-- Link types 0 and 2 are SCO and eSCO.
unfoldable pub connected_as : ℕ → ℕ → Coex → Coex
unfolding reset_at update_profile_connection
connected_as link_type place s =
    if link_type == 0 || link_type == 2
    then update_profile_connection place profile_sco true (reset_at place sco s)
    else reset_at place l2cap s

unfoldable pub rtk_handle_connection_complete_evt : List ℕ → Coex → Coex
unfolding connection_for connected_as
rtk_handle_connection_complete_evt bytes s =
    let s' = record s { ispaging = false } in
    let (found, s'') = connection_for (u16_at bytes 3) s' in
    if u8_at bytes 2 == 0
    then elim found [ none ↦ s'' | some place ↦ connected_as (u8_at bytes 11) place s'' ]
    else s'

-- Low energy counts as HID.
unfoldable pub le_connected : ℕ → ℕ → ℕ → Coex → Coex
unfolding reset_at update_profile_connection update_hid_active_state
le_connected h interval place s =
    update_hid_active_state h interval
      (update_profile_connection place profile_hid true (reset_at place le s))

unfoldable pub rtk_handle_le_connection_complete_evt : Bool → List ℕ → Coex → Coex
unfolding connection_for le_connected
rtk_handle_le_connection_complete_evt enhanced bytes s =
    let h = u16_at bytes 4 in
    let interval = u16_at bytes (if enhanced then 26 else 14) in
    let s' = record s { ispaging = false } in
    let (found, s'') = connection_for h s' in
    if u8_at bytes 3 == 0
    then elim found [ none ↦ s'' | some place ↦ le_connected h interval place s'' ]
    else s'

unfoldable pub rtk_handle_le_meta_evt : List ℕ → Coex → Coex
unfolding rtk_handle_le_connection_complete_evt update_hid_active_state
rtk_handle_le_meta_evt bytes s =
    let sub_event = u8_at bytes 2 in
    if sub_event == hci_ev_le_conn_complete
    then rtk_handle_le_connection_complete_evt false bytes s
    else if sub_event == hci_ev_le_enhanced_conn_complete
    then rtk_handle_le_connection_complete_evt true bytes s
    else if sub_event == hci_ev_le_conn_update_complete
    then update_hid_active_state (u16_at bytes 4) (u16_at bytes 6) s
    else s

-- `flags & A2DP_MEDIA`
unfoldable pub is_media : ProfInfo → Bool
is_media d = d.flags % 4 == 2 || d.flags % 4 == 3

-- One channel of the connection goes.
unfoldable pub drop_channel : ProfInfo → Conn → Conn × Bool
unfolding disconn_profile is_media is_profile_connected
drop_channel d c =
    let (c', need) = disconn_profile d.profile_index c in
    let (c'', need') = disconn_profile profile_sink c' in
    if is_media d && is_profile_connected c' profile_sink then (c'', need || need') else (c', need)

-- All channels of a handle go; what is left is the list without them.
unfoldable pub drop_channels : ℕ → List ProfInfo → Conn → List ProfInfo × Conn × Bool
unfolding drop_channel
drop_channels h [] c = ([], c, false)
drop_channels h (d ∷ ds) c =
    let (c1, need) = drop_channel d c in
    let c' = if h == d.handle then c1 else c in
    let (rest, c'', need') = drop_channels h ds c' in
    if h == d.handle then (rest, c'', need || need') else (d ∷ rest, c'', need')

unfoldable pub disconn_acl : ℕ → ℕ → Coex → Coex
unfolding drop_channels rtk_notify_profileinfo_to_fw
disconn_acl h place s = elim (get_elem? s.conn_hash place) [
  | none ↦ s
  | some c ↦
      let (rest, c', need_update) = drop_channels h s.profile_list c in
      let s' = record s { profile_list = rest; conn_hash = set s.conn_hash place c' } in
      if need_update then rtk_notify_profileinfo_to_fw s' else s'
]

unfoldable pub link_ends : LinkType → ℕ → ℕ → Coex → Coex
unfolding disconn_acl update_profile_connection
link_ends l2cap h place s = disconn_acl h place s
link_ends sco h place s = update_profile_connection place profile_sco false s
link_ends le h place s = update_profile_connection place profile_hid false s
link_ends (other_type n) h place s = s

-- The works of the connection are cancelled.
abbrev pub delete_connection_from_hash : ℕ → Coex → Coex
delete_connection_from_hash place s = record s { conn_hash = remove_at s.conn_hash place }

unfoldable pub disconnected : ℕ → ℕ → Coex → Coex
disconnected h place s = elim (get_elem? s.conn_hash place) [
  | none ↦ s
  | some c ↦ delete_connection_from_hash place (link_ends c.link_type h place s)
]

unfoldable pub rtk_handle_disconnect_complete_evt : List ℕ → Coex → Coex
unfolding find_connection_by_handle disconnected
rtk_handle_disconnect_complete_evt bytes s =
    let s' = record s { ispairing = false } in
    let h = u16_at bytes 3 in
    if not (u8_at bytes 2 == 0) then s' else elim (find_connection_by_handle s.conn_hash h) [
      | none ↦ s'
      | some place ↦ disconnected h place s'
    ]
