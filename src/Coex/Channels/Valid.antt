-- ===== src/Coex/Channels/Valid.antt =====
-- L2CAP signals keep what holds of connections and channels.
use br_external.Prelude.{
  ℕ, suc, ◌%◌, ◌≤◌, ◌<◌, ◌≢◌, arith, Bool, false, not, if_cases, ◌==◌, get_elem?, set, All-set,
  All-append, All-remove_at, option_cases, ◌&&◌,
}
use br_external.Coex.State.{ProfInfo, Coex, kmalloc, zero_prof, profile_a2dp, profile_sink}
use br_external.Coex.Counters.{is_profile_connected}
use br_external.Coex.Notify.{update_profile_connection, find_connection_by_handle}
use br_external.Coex.Notify.Valid.{
  IsKnown, Valid, Valid-le, All-get_elem?, update_profile_connection_up-Valid,
  update_profile_connection_down-Valid,
}
use br_external.Coex.Channels.{
  psm_to_profile_index, list_allocate_add, handle_l2cap_con_req, handle_l2cap_con_rsp, joined,
  sink_down, handle_l2cap_discon_req, find_profile, find_both,
}

psm_to_profile_index-lt : (psm : ℕ) → psm_to_profile_index psm ≢ 0xFF → psm_to_profile_index psm < 4
unfolding psm_to_profile_index
psm_to_profile_index-lt psm h = ground arith

list_allocate_add-Valid :
    (n h psm i dcid scid : ℕ) (s : Coex)
    → i < 4
    → Valid n s
    → Valid n (list_allocate_add h psm i dcid scid s).0
unfolding list_allocate_add
list_allocate_add-Valid n h psm i dcid scid s known v =
    option_cases (λ (r : Coex × Bool). Valid n r.0) (kmalloc zero_prof s.kernel.prof_blocks).0 _ _
      (λ e. record { tracked = v.tracked; known = v.known })
      (λ b e. record {
        tracked = v.tracked;
        known = All-append IsKnown s.profile_list _ v.known (known, tt);
      })

pub handle_l2cap_con_req-Valid :
    (n h psm scid : ℕ) (out : Bool) (s : Coex)
    → Valid n s
    → Valid n (handle_l2cap_con_req h psm scid out s).0
unfolding handle_l2cap_con_req
handle_l2cap_con_req-Valid n h psm scid out s v =
    if_cases (λ (r : Coex × Bool). Valid n r.0) (psm_to_profile_index psm == 0xFF) _ _ (λ e. v)
      λ e.
        option_cases (λ (r : Coex × Bool). Valid n r.0) (find_profile out s.profile_list h scid) _ _
          (λ _.
            let known = psm_to_profile_index-lt psm (ground arith) in
            if_cases (λ (r : Coex × Bool). Valid n r.0) out _ _
              (λ _. list_allocate_add-Valid n h psm _ 0 scid s known v)
              (λ _. list_allocate_add-Valid n h psm _ scid 0 s known v))
          (λ p _. v)

joined-IsKnown : (dcid : ℕ) (out : Bool) (d : ProfInfo) → IsKnown d → IsKnown (joined dcid out d)
unfolding joined
joined-IsKnown dcid out d h = ground arith

pub handle_l2cap_con_rsp-Valid :
    (n h dcid scid : ℕ) (out : Bool) (result : ℕ) (s : Coex)
    → n < 255
    → Valid n s
    → Valid (suc n) (handle_l2cap_con_rsp h dcid scid out result s).0
unfolding handle_l2cap_con_rsp
handle_l2cap_con_rsp-Valid n h dcid scid out result s room v =
    let P : Coex × Bool → Type 0 = λ r. Valid (suc n) r.0 in
    let same = Valid-le n (suc n) s (omega arith) v in
    option_cases P (find_profile (not out) s.profile_list h scid) _ _ (λ _. same)
      λ p _.
        option_cases P (get_elem? s.profile_list p) _ _ (λ _. same)
          λ d e.
            let known = All-get_elem? IsKnown s.profile_list p d e v.known in
            let s' : Coex = record s { profile_list = set s.profile_list p (joined dcid out d) } in
            let v' : Valid n s' = record {
              tracked = v.tracked;
              known = All-set IsKnown s.profile_list p _ v.known (joined-IsKnown dcid out d known);
            } in
            if_cases P (not (result % 256 == 0)) _ _ (λ _. same)
              λ _.
                option_cases P (find_connection_by_handle s.conn_hash h) _ _
                  (λ _. Valid-le n (suc n) s' (omega arith) v')
                  (λ place _.
                    update_profile_connection_up-Valid n place d.profile_index s' (omega arith)
                      (λ q. ground arith) room v')

sink_down-Valid : (n p i : ℕ) (s : Coex) → n ≤ 255 → Valid n s → Valid n (sink_down p i s)
unfolding sink_down
sink_down-Valid n p i s room v =
    option_cases (Valid n) (get_elem? s.conn_hash p) _ _ (λ _. v)
      λ c _.
        if_cases (Valid n) (i == profile_a2dp && is_profile_connected c profile_sink) _ _
          (λ _.
            update_profile_connection_down-Valid n p 7 s (omega arith) (λ q. ground arith) room v)
          (λ _. v)

pub handle_l2cap_discon_req-Valid :
    (n h dcid scid : ℕ) (out : Bool) (s : Coex)
    → n ≤ 255
    → Valid n s
    → Valid n (handle_l2cap_discon_req h dcid scid out s).0
unfolding handle_l2cap_discon_req
handle_l2cap_discon_req-Valid n h dcid scid out s room v =
    let P : Coex × Bool → Type 0 = λ r. Valid n r.0 in
    option_cases P (find_both out s.profile_list h dcid scid) _ _ (λ _. v)
      λ p _.
        option_cases P (get_elem? s.profile_list p) _ _ (λ _. v)
          λ d e.
            let known = All-get_elem? IsKnown s.profile_list p d e v.known in
            option_cases P (find_connection_by_handle s.conn_hash h) _ _ (λ _. v)
              λ place _.
                let i = d.profile_index in
                let s' = update_profile_connection place i false s in
                let v' = sink_down-Valid n place i s' room (
                  update_profile_connection_down-Valid n place i s (omega arith) (λ q. ground arith)
                    room v) in
                record { tracked = v'.tracked; known = All-remove_at IsKnown _ p v'.known }
