-- ===== src/Coex/Events/Valid.antt =====
-- The events of rtk_coex.c keep what holds of connections and channels.
use br_external.Prelude.{ℕ, suc, ◌≤◌, ◌<◌, arith, if_cases, ◌==◌, ◌||◌, List}
use br_external.Coex.State.{Coex}
use br_external.Coex.Notify.Valid.{Same, Valid, Valid-le, Valid-Same, update_hid_active_state-Valid}
use br_external.Coex.Hci.{Hci}
use br_external.Coex.Links.{u8_at, u16_at}
use br_external.Coex.Events.{
  rtk_parse_event_data, rtk_handle_mode_change_evt, rtk_handle_inquiry_complete,
  rtk_handle_pin_code_req, rtk_handle_auth_request, rtk_handle_cmd_complete_evt,
  rtk_handle_cmd_status_evt,
}
use br_external.Coex.Links.Connected.{rtk_handle_connection_complete_evt-Valid}
use br_external.Coex.Links.Gone.{
  rtk_handle_disconnect_complete_evt-Valid, rtk_handle_le_meta_evt-Valid,
}

-- The handlers of commands do not touch connections and channels.
cmd_complete-Same :
    (hci : Hci) (bytes : List ℕ) (s : Coex) → Same (rtk_handle_cmd_complete_evt hci bytes s) s
unfolding rtk_handle_cmd_complete_evt
cmd_complete-Same hci bytes s = ground arith

cmd_status-Same :
    (hci : Hci) (bytes : List ℕ) (s : Coex) → Same (rtk_handle_cmd_status_evt hci bytes s) s
unfolding rtk_handle_cmd_status_evt
cmd_status-Same hci bytes s = ground arith

cmd_complete-Valid :
    (n : ℕ) (hci : Hci) (bytes : List ℕ) (s : Coex)
    → Valid n s
    → Valid n (rtk_handle_cmd_complete_evt hci bytes s)
cmd_complete-Valid n hci bytes s v = Valid-Same n _ s (cmd_complete-Same hci bytes s) v

cmd_status-Valid :
    (n : ℕ) (hci : Hci) (bytes : List ℕ) (s : Coex)
    → Valid n s
    → Valid n (rtk_handle_cmd_status_evt hci bytes s)
cmd_status-Valid n hci bytes s v = Valid-Same n _ s (cmd_status-Same hci bytes s) v

pub rtk_parse_event_data-Valid :
    (n : ℕ) (hci : Hci) (bytes : List ℕ) (s : Coex)
    → n < 254
    → Valid n s
    → Valid (suc (suc n)) (rtk_parse_event_data hci bytes s)
unfolding rtk_parse_event_data rtk_handle_inquiry_complete rtk_handle_pin_code_req
    rtk_handle_auth_request rtk_handle_mode_change_evt
rtk_parse_event_data-Valid n hci bytes s room v =
    let P : Coex → Type 0 = Valid (suc (suc n)) in
    let code = u8_at bytes 0 in
    let up : (k : ℕ) (t : Coex) → k ≤ suc (suc n) → Valid k t → P t =
      λ k t h w. Valid-le k (suc (suc n)) t h w in
    let same : P s = up n s (omega arith) v in
    if_cases P (code == hci.ev_inquiry_complete) _ _
      (λ _. record { tracked = same.tracked; known = same.known })
      λ _.
        if_cases P (code == hci.ev_pin_code_req || code == hci.ev_io_capa_request) _ _
          (λ _. record { tracked = same.tracked; known = same.known })
          λ _.
            if_cases P (code == hci.ev_auth_complete || code == hci.ev_link_key_notify) _ _
              (λ _. record { tracked = same.tracked; known = same.known })
              λ _.
                if_cases P (code == hci.ev_mode_change) _ _
                  (λ _. up (suc n) _ (omega arith) (
                    update_hid_active_state-Valid n (u16_at bytes 3) (u16_at bytes 6) s
                      (omega arith) v))
                  λ _.
                    if_cases P (code == hci.ev_cmd_complete) _ _
                      (λ _. up n _ (omega arith) (cmd_complete-Valid n hci bytes s v))
                      λ _.
                        if_cases P (code == hci.ev_cmd_status) _ _
                          (λ _. up n _ (omega arith) (cmd_status-Valid n hci bytes s v))
                          λ _.
                            if_cases P
                              (code == hci.ev_conn_complete || code == hci.ev_sync_conn_complete) _
                              _
                              (λ _. up (suc n) _ (omega arith) (
                                rtk_handle_connection_complete_evt-Valid n bytes s (omega arith) v))
                              λ _.
                                if_cases P (code == hci.ev_disconn_complete) _ _
                                  (λ _. up n _ (omega arith) (
                                    rtk_handle_disconnect_complete_evt-Valid n bytes s (omega arith)
                                      v))
                                  λ _.
                                    if_cases P (code == 0x3e) _ _
                                      (λ _. rtk_handle_le_meta_evt-Valid n bytes s room v)
                                      (λ _. same)
