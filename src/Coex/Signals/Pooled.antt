-- ===== src/Coex/Signals/Pooled.antt =====
-- What handles an L2CAP signal in rtk_coex.c leaves the pools as they are.
use br_external.Prelude.{
  ℕ, ◌%◌, ◌≡◌, refl, ◌∙◌, arith, Bool, true, false, not, if_cases, ◌==◌, ◌&&◌, get_elem?, set,
  option_cases,
}
use br_external.Coex.State.{
  Conn, Coex, Pools, L2Buff, kmalloc, zero_prof, profile_a2dp, profile_sink,
}
use br_external.Coex.Hci.{Hci}
use br_external.Coex.Counters.{is_profile_connected}
use br_external.Coex.Notify.{
  rtk_vendor_cmd_to_fw, rtk_notify_profileinfo_to_fw, on_conn, find_connection_by_handle,
  update_profile_connection, update_hid_active_state,
}
use br_external.Coex.Channels.{
  psm_to_profile_index, list_allocate_add, handle_l2cap_con_req, handle_l2cap_con_rsp, joined,
  sink_down, handle_l2cap_discon_req, find_profile, find_both,
}
use br_external.Coex.Links.{u8_at, u16_at}
use br_external.Coex.Signals.{rtl_process_l2_sig}

-- The pools of a state are `p`.
abbrev pub Has : Pools → Coex → Type 0
Has p t = t.pools ≡ p

abbrev HasFirst : Pools → Coex × Bool → Type 0
HasFirst p r = r.0.pools ≡ p

pub notify-Has : (s : Coex) → Has s.pools (rtk_notify_profileinfo_to_fw s)
unfolding rtk_notify_profileinfo_to_fw rtk_vendor_cmd_to_fw
notify-Has s = ground arith

on_conn-Has : (p : ℕ) (f : Conn → Conn × Bool) (s : Coex) → Has s.pools (on_conn p f s)
unfolding on_conn
on_conn-Has p f s =
    option_cases (Has s.pools) (get_elem? s.conn_hash p) _ _ (λ _. refl)
      λ c _.
        if_cases (Has s.pools) (f c).1 _ _
          (λ _. notify-Has (record s { conn_hash = set s.conn_hash p (f c).0 })) (λ _. refl)

pub connection-Has :
    (p i : ℕ) (b : Bool) (s : Coex) → Has s.pools (update_profile_connection p i b s)
unfolding update_profile_connection
connection-Has p i b s = on_conn-Has p _ s

pub hid-Has : (h i : ℕ) (s : Coex) → Has s.pools (update_hid_active_state h i s)
unfolding update_hid_active_state
hid-Has h i s =
    option_cases (Has s.pools) (find_connection_by_handle s.conn_hash h) _ _ (λ _. refl)
      (λ p _. on_conn-Has p _ s)

add-Has : (h psm i d c : ℕ) (s : Coex) → HasFirst s.pools (list_allocate_add h psm i d c s)
unfolding list_allocate_add
add-Has h psm i d c s =
    option_cases (HasFirst s.pools) (kmalloc zero_prof s.kernel.prof_blocks).0 _ _ (λ _. refl)
      (λ b _. refl)

con_req-Has :
    (h psm c : ℕ) (out : Bool) (s : Coex) → HasFirst s.pools (handle_l2cap_con_req h psm c out s)
unfolding handle_l2cap_con_req
con_req-Has h psm c out s =
    if_cases (HasFirst s.pools) (psm_to_profile_index psm == 0xFF) _ _ (λ _. refl)
      λ _.
        option_cases (HasFirst s.pools) (find_profile out s.profile_list h c) _ _
          (λ _.
            if_cases (HasFirst s.pools) out _ _ (λ _. add-Has h psm _ 0 c s)
              (λ _. add-Has h psm _ c 0 s))
          (λ p _. refl)

con_rsp-Has :
    (h d c : ℕ) (out : Bool) (result : ℕ) (s : Coex)
    → HasFirst s.pools (handle_l2cap_con_rsp h d c out result s)
unfolding handle_l2cap_con_rsp
con_rsp-Has h d c out result s =
    option_cases (HasFirst s.pools) (find_profile (not out) s.profile_list h c) _ _ (λ _. refl)
      λ p _.
        option_cases (HasFirst s.pools) (get_elem? s.profile_list p) _ _ (λ _. refl)
          λ b _.
            if_cases (HasFirst s.pools) (not (result % 256 == 0)) _ _ (λ _. refl)
              λ _.
                option_cases (HasFirst s.pools) (find_connection_by_handle s.conn_hash h) _ _
                  (λ _. refl)
                  (λ q _.
                    connection-Has q b.profile_index true
                      (record s { profile_list = set s.profile_list p (joined d out b) }))

sink_down-Has : (p i : ℕ) (s : Coex) → Has s.pools (sink_down p i s)
unfolding sink_down
sink_down-Has p i s =
    option_cases (Has s.pools) (get_elem? s.conn_hash p) _ _ (λ _. refl)
      λ c _.
        if_cases (Has s.pools) (i == profile_a2dp && is_profile_connected c profile_sink) _ _
          (λ _. connection-Has p profile_sink false s) (λ _. refl)

discon_req-Has :
    (h d c : ℕ) (out : Bool) (s : Coex) → HasFirst s.pools (handle_l2cap_discon_req h d c out s)
unfolding handle_l2cap_discon_req
discon_req-Has h d c out s =
    option_cases (HasFirst s.pools) (find_both out s.profile_list h d c) _ _ (λ _. refl)
      λ p _.
        option_cases (HasFirst s.pools) (get_elem? s.profile_list p) _ _ (λ _. refl)
          λ b _.
            option_cases (HasFirst s.pools) (find_connection_by_handle s.conn_hash h) _ _
              (λ _. refl)
              λ q _.
                sink_down-Has q b.profile_index
                  (update_profile_connection q b.profile_index false s)
                ∙ connection-Has q b.profile_index false s

pub rtl_process_l2_sig-pools :
    (hci : Hci) (l2 : L2Buff) (s : Coex) → (rtl_process_l2_sig hci l2 s).pools ≡ s.pools
unfolding rtl_process_l2_sig
rtl_process_l2_sig-pools hci l2 s =
    let h = u16_at l2.bytes 0 % 4096 in
    let code = u8_at l2.bytes 8 in
    let a = u16_at l2.bytes 12 in
    let b = u16_at l2.bytes 14 in
    if_cases (Has s.pools) (code == hci.l2cap_conn_req) _ _ (λ _. con_req-Has h a b l2.out s)
      λ _.
        if_cases (Has s.pools) (code == hci.l2cap_conn_rsp) _ _
          (λ _. con_rsp-Has h a b l2.out (u16_at l2.bytes 16) s)
          λ _.
            if_cases (Has s.pools) (code == hci.l2cap_disconn_req) _ _
              (λ _. discon_req-Has h a b l2.out s) (λ _. refl)
