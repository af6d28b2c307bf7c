-- ===== src/Coex/Events/Pooled.antt =====
-- What handles an event in rtk_coex.c leaves the pools as they are.
use br_external.Prelude.{
  ℕ, ◌≡◌, refl, ◌∙◌, arith, Bool, true, false, not, if◌then◌else◌, if_cases, ◌==◌, ◌||◌, Option,
  List, get_elem?, set, option_cases,
}
use br_external.Coex.State.{Coex, LinkType, kmalloc, zero_conn}
use br_external.Coex.State.LinkType.{l2cap, sco, le, other_type}
use br_external.Coex.Hci.{Hci}
use br_external.Coex.Notify.{find_connection_by_handle}
use br_external.Coex.Links.{
  u8_at, u16_at, connection_for, add_connection, reset_at, connected_as,
  rtk_handle_connection_complete_evt, le_connected, rtk_handle_le_connection_complete_evt,
  rtk_handle_le_meta_evt, drop_channels, disconn_acl, link_ends, disconnected,
  rtk_handle_disconnect_complete_evt,
}
use br_external.Coex.Events.{
  rtk_parse_event_data, rtk_handle_mode_change_evt, rtk_handle_inquiry_complete,
  rtk_handle_pin_code_req, rtk_handle_auth_request, rtk_handle_cmd_complete_evt,
  rtk_handle_cmd_status_evt,
}
use br_external.Coex.Signals.Pooled.{Has, notify-Has, connection-Has, hid-Has}

reset-Has : (p : ℕ) (k : LinkType) (s : Coex) → Has s.pools (reset_at p k s)
unfolding reset_at
reset-Has p k s = option_cases (Has s.pools) (get_elem? s.conn_hash p) _ _ (λ _. refl) (λ c _. refl)

for-Has : (h : ℕ) (s : Coex) → Has s.pools (connection_for h s).1
unfolding connection_for add_connection
for-Has h s =
    option_cases (λ (r : Option ℕ × Coex). Has s.pools r.1)
      (find_connection_by_handle s.conn_hash h) _ _
      (λ _.
        option_cases (λ (r : Option ℕ × Coex). Has s.pools r.1)
          (kmalloc zero_conn s.kernel.conn_blocks).0 _ _ (λ _. refl) (λ b _. refl))
      (λ p _. refl)

connected-Has : (k p : ℕ) (s : Coex) → Has s.pools (connected_as k p s)
unfolding connected_as
connected-Has k p s =
    if_cases (Has s.pools) (k == 0 || k == 2) _ _
      (λ _. connection-Has p 0 true (reset_at p sco s) ∙ reset-Has p sco s)
      (λ _. reset-Has p l2cap s)

complete-Has :
    (bytes : List ℕ) (s : Coex) → Has s.pools (rtk_handle_connection_complete_evt bytes s)
unfolding rtk_handle_connection_complete_evt
complete-Has bytes s =
    let s' : Coex = record s { ispaging = false } in
    let r = connection_for (u16_at bytes 3) s' in
    let e = for-Has (u16_at bytes 3) s' in
    if_cases (Has s.pools) (u8_at bytes 2 == 0) _ _
      (λ _.
        option_cases (Has s.pools) r.0 _ _ (λ _. e)
          (λ p _. connected-Has (u8_at bytes 11) p r.1 ∙ e))
      (λ _. refl)

le_connected-Has : (h i p : ℕ) (s : Coex) → Has s.pools (le_connected h i p s)
unfolding le_connected
le_connected-Has h i p s =
    hid-Has h i _ ∙ (connection-Has p 1 true (reset_at p le s) ∙ reset-Has p le s)

le_complete-Has :
    (enhanced : Bool) (bytes : List ℕ) (s : Coex)
    → Has s.pools (rtk_handle_le_connection_complete_evt enhanced bytes s)
unfolding rtk_handle_le_connection_complete_evt
le_complete-Has enhanced bytes s =
    let h = u16_at bytes 4 in
    let s' : Coex = record s { ispaging = false } in
    let r = connection_for h s' in
    let e = for-Has h s' in
    if_cases (Has s.pools) (u8_at bytes 3 == 0) _ _
      (λ _.
        option_cases (Has s.pools) r.0 _ _ (λ _. e)
          (λ p _. le_connected-Has h (u16_at bytes (if enhanced then 26 else 14)) p r.1 ∙ e))
      (λ _. refl)

le_meta-Has : (bytes : List ℕ) (s : Coex) → Has s.pools (rtk_handle_le_meta_evt bytes s)
unfolding rtk_handle_le_meta_evt
le_meta-Has bytes s =
    let kind = u8_at bytes 2 in
    if_cases (Has s.pools) (kind == 0x01) _ _ (λ _. le_complete-Has false bytes s)
      λ _.
        if_cases (Has s.pools) (kind == 0x0a) _ _ (λ _. le_complete-Has true bytes s)
          λ _.
            if_cases (Has s.pools) (kind == 0x03) _ _
              (λ _. hid-Has (u16_at bytes 4) (u16_at bytes 6) s) (λ _. refl)

acl-Has : (h p : ℕ) (s : Coex) → Has s.pools (disconn_acl h p s)
unfolding disconn_acl
acl-Has h p s =
    option_cases (Has s.pools) (get_elem? s.conn_hash p) _ _ (λ _. refl)
      λ c _.
        let r = drop_channels h s.profile_list c in
        let s' : Coex = record s { profile_list = r.0; conn_hash = set s.conn_hash p r.1 } in
        if_cases (Has s.pools) r.2 _ _ (λ _. notify-Has s') (λ _. refl)

ends-Has : (k : LinkType) (h p : ℕ) (s : Coex) → Has s.pools (link_ends k h p s)
unfolding link_ends
ends-Has l2cap h p s = acl-Has h p s
ends-Has sco h p s = connection-Has p 0 false s
ends-Has le h p s = connection-Has p 1 false s
ends-Has (other_type n) h p s = refl

disconnect-Has :
    (bytes : List ℕ) (s : Coex) → Has s.pools (rtk_handle_disconnect_complete_evt bytes s)
unfolding rtk_handle_disconnect_complete_evt disconnected
disconnect-Has bytes s =
    let s' : Coex = record s { ispairing = false } in
    let h = u16_at bytes 3 in
    if_cases (Has s.pools) (not (u8_at bytes 2 == 0)) _ _ (λ _. refl)
      λ _.
        option_cases (Has s.pools) (find_connection_by_handle s.conn_hash h) _ _ (λ _. refl)
          λ p _.
            option_cases (Has s.pools) (get_elem? s.conn_hash p) _ _ (λ _. refl)
              (λ c _. ends-Has c.link_type h p s')

cmd_complete-Has :
    (hci : Hci) (bytes : List ℕ) (s : Coex) → Has s.pools (rtk_handle_cmd_complete_evt hci bytes s)
unfolding rtk_handle_cmd_complete_evt
cmd_complete-Has hci bytes s = ground arith

cmd_status-Has :
    (hci : Hci) (bytes : List ℕ) (s : Coex) → Has s.pools (rtk_handle_cmd_status_evt hci bytes s)
unfolding rtk_handle_cmd_status_evt
cmd_status-Has hci bytes s = ground arith

pub rtk_parse_event_data-pools :
    (hci : Hci) (bytes : List ℕ) (s : Coex) → (rtk_parse_event_data hci bytes s).pools ≡ s.pools
unfolding rtk_parse_event_data rtk_handle_inquiry_complete rtk_handle_pin_code_req
    rtk_handle_auth_request rtk_handle_mode_change_evt
rtk_parse_event_data-pools hci bytes s =
    let P = Has s.pools in
    let code = u8_at bytes 0 in
    if_cases P (code == hci.ev_inquiry_complete) _ _ (λ _. refl)
      λ _.
        if_cases P (code == hci.ev_pin_code_req || code == hci.ev_io_capa_request) _ _ (λ _. refl)
          λ _.
            if_cases P (code == hci.ev_auth_complete || code == hci.ev_link_key_notify) _ _
              (λ _. refl)
              λ _.
                if_cases P (code == hci.ev_mode_change) _ _
                  (λ _. hid-Has (u16_at bytes 3) (u16_at bytes 6) s)
                  λ _.
                    if_cases P (code == hci.ev_cmd_complete) _ _ (λ _. cmd_complete-Has hci bytes s)
                      λ _.
                        if_cases P (code == hci.ev_cmd_status) _ _ (λ _. cmd_status-Has hci bytes s)
                          λ _.
                            if_cases P
                              (code == hci.ev_conn_complete || code == hci.ev_sync_conn_complete) _
                              _ (λ _. complete-Has bytes s)
                              λ _.
                                if_cases P (code == hci.ev_disconn_complete) _ _
                                  (λ _. disconnect-Has bytes s)
                                  λ _.
                                    if_cases P (code == 0x3e) _ _ (λ _. le_meta-Has bytes s)
                                      (λ _. refl)
