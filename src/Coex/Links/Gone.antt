-- ===== src/Coex/Links/Gone.antt =====
-- The ends of connections in rtk_coex.c keep what holds of connections and channels.
use br_external.Prelude.{
  ℕ, suc, ◌≤◌, ◌<◌, arith, Bool, true, false, not, if◌then◌else◌, if_cases, ◌==◌, ◌&&◌, List, [],
  ◌∷◌, get_elem?, set, All, All-set, All-remove_at, option_cases,
}
use br_external.Coex.State.{Conn, ProfInfo, Coex, LinkType, profile_sink}
use br_external.Coex.State.LinkType.{l2cap, sco, le, other_type}
use br_external.Coex.Counters.{disconn_profile, is_profile_connected}
use br_external.Coex.Counters.Tracked.{Tracked, disconn_profile-Tracked}
use br_external.Coex.Notify.{find_connection_by_handle}
use br_external.Coex.Notify.Valid.{
  IsKnown, Valid, Valid-le, Valid-Same, All-get_elem?, rtk_notify_profileinfo_to_fw-Same,
  update_profile_connection_down-Valid, update_hid_active_state-Valid,
}
use br_external.Coex.Links.{
  u8_at, u16_at, rtk_handle_le_meta_evt, is_media, drop_channel, drop_channels, disconn_acl,
  link_ends, disconnected, rtk_handle_disconnect_complete_evt,
}
use br_external.Coex.Links.Connected.{rtk_handle_le_connection_complete_evt-Valid}

drop_channel-Tracked :
    (n : ℕ) (d : ProfInfo) (c : Conn)
    → n ≤ 255
    → IsKnown d
    → Tracked n c
    → Tracked n (drop_channel d c).0
unfolding drop_channel
drop_channel-Tracked n d c room known t =
    let c' = (disconn_profile d.profile_index c).0 in
    let t' : Tracked n c' =
      disconn_profile-Tracked n d.profile_index c (omega arith) (λ q. ground arith) t room in
    if_cases (λ (r : Conn × Bool). Tracked n r.0)
      (is_media d && is_profile_connected c' profile_sink) _ _
      (λ _. disconn_profile-Tracked n 7 c' (omega arith) (λ q. ground arith) t' room) (λ _. t')

abbrev Dropped : ℕ → List ProfInfo × Conn × Bool → Type 0
Dropped n r = All IsKnown r.0 × Tracked n r.1

drop_channels-Dropped :
    (n h : ℕ) (ds : List ProfInfo) (c : Conn)
    → n ≤ 255
    → All IsKnown ds
    → Tracked n c
    → Dropped n (drop_channels h ds c)
unfolding drop_channels
drop_channels-Dropped n h [] c room a t = (tt, t)
drop_channels-Dropped n h (d ∷ ds) c room a t =
    let c' = if h == d.handle then (drop_channel d c).0 else c in
    let t' : Tracked n c' =
      if_cases (Tracked n) (h == d.handle) _ _ (λ _. drop_channel-Tracked n d c room a.0 t)
        (λ _. t) in
    let ih = drop_channels-Dropped n h ds c' room a.1 t' in
    if_cases (Dropped n) (h == d.handle) _ _ (λ _. ih) (λ _. ((a.0, ih.0), ih.1))

disconn_acl-Valid : (n h p : ℕ) (s : Coex) → n ≤ 255 → Valid n s → Valid n (disconn_acl h p s)
unfolding disconn_acl
disconn_acl-Valid n h p s room v =
    option_cases (Valid n) (get_elem? s.conn_hash p) _ _ (λ _. v)
      λ c e.
        let t = All-get_elem? (Tracked n) s.conn_hash p c e v.tracked in
        let r = drop_channels h s.profile_list c in
        let d = drop_channels-Dropped n h s.profile_list c room v.known t in
        let s' : Coex = record s { profile_list = r.0; conn_hash = set s.conn_hash p r.1 } in
        let v' : Valid n s' = record {
          tracked = All-set (Tracked n) s.conn_hash p r.1 v.tracked d.1;
          known = d.0;
        } in
        if_cases (Valid n) r.2 _ _
          (λ _. Valid-Same n _ s' (rtk_notify_profileinfo_to_fw-Same s') v') (λ _. v')

link_ends-Valid :
    (n : ℕ) (k : LinkType) (h p : ℕ) (s : Coex) → n ≤ 255 → Valid n s → Valid n (link_ends k h p s)
unfolding link_ends
link_ends-Valid n l2cap h p s room v = disconn_acl-Valid n h p s room v
link_ends-Valid n sco h p s room v =
    update_profile_connection_down-Valid n p 0 s (omega arith) (λ q. ground arith) room v
link_ends-Valid n le h p s room v =
    update_profile_connection_down-Valid n p 1 s (omega arith) (λ q. ground arith) room v
link_ends-Valid n (other_type k) h p s room v = v

disconnected-Valid : (n h p : ℕ) (s : Coex) → n ≤ 255 → Valid n s → Valid n (disconnected h p s)
unfolding disconnected
disconnected-Valid n h p s room v =
    option_cases (Valid n) (get_elem? s.conn_hash p) _ _ (λ _. v)
      λ c e.
        let v' = link_ends-Valid n c.link_type h p s room v in
        record { tracked = All-remove_at (Tracked n) _ p v'.tracked; known = v'.known }

pub rtk_handle_disconnect_complete_evt-Valid :
    (n : ℕ) (bytes : List ℕ) (s : Coex)
    → n ≤ 255
    → Valid n s
    → Valid n (rtk_handle_disconnect_complete_evt bytes s)
unfolding rtk_handle_disconnect_complete_evt
rtk_handle_disconnect_complete_evt-Valid n bytes s room v =
    let s' : Coex = record s { ispairing = false } in
    let v' : Valid n s' = record { tracked = v.tracked; known = v.known } in
    if_cases (Valid n) (not (u8_at bytes 2 == 0)) _ _ (λ _. v')
      λ _.
        option_cases (Valid n) (find_connection_by_handle s.conn_hash (u16_at bytes 3)) _ _
          (λ _. v') (λ p _. disconnected-Valid n (u16_at bytes 3) p s' room v')

pub rtk_handle_le_meta_evt-Valid :
    (n : ℕ) (bytes : List ℕ) (s : Coex)
    → n < 254
    → Valid n s
    → Valid (suc (suc n)) (rtk_handle_le_meta_evt bytes s)
unfolding rtk_handle_le_meta_evt
rtk_handle_le_meta_evt-Valid n bytes s room v =
    let P : Coex → Type 0 = Valid (suc (suc n)) in
    let kind = u8_at bytes 2 in
    if_cases P (kind == 0x01) _ _
      (λ _. rtk_handle_le_connection_complete_evt-Valid n false bytes s room v)
      λ _.
        if_cases P (kind == 0x0a) _ _
          (λ _. rtk_handle_le_connection_complete_evt-Valid n true bytes s room v)
          λ _.
            if_cases P (kind == 0x03) _ _
              (λ _. Valid-le (suc n) (suc (suc n)) _ (omega arith) (
                update_hid_active_state-Valid n (u16_at bytes 4) (u16_at bytes 6) s (omega arith)
                  v))
              (λ _. Valid-le n (suc (suc n)) s (omega arith) v)
