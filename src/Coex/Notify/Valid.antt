-- ===== src/Coex/Notify/Valid.antt =====
-- The notices of rtk_coex.c leave connections and profiles as they are, and a change of one
-- connection keeps what holds of all.
use br_external.Prelude.{
  ℕ, zero, suc, ◌≤◌, ◌<◌, ◌≡◌, ◌≢◌, sym, arith, subst, Bool, true, false, if_cases, some, List, [],
  ◌∷◌, get_elem?, set, All, All-set, option_cases,
}
use br_external.Coex.State.{Conn, ProfInfo, Coex}
use br_external.Coex.Counters.{mark, count_up, count_down, hid_active}
use br_external.Coex.Counters.Tracked.{
  Tracked, Tracked-le, mark-Tracked, count_up-Tracked, count_down-Tracked, hid_active-Tracked,
}
use br_external.Coex.Notify.{
  rtk_vendor_cmd_to_fw, rtk_notify_profileinfo_to_fw, on_conn, update_profile_state,
  update_profile_connection, update_hid_active_state, find_connection_by_handle,
}

-- The profile of a channel is HID, A2DP or PAN.
abbrev pub IsKnown : ProfInfo → Type 0
IsKnown d = d.profile_index < 4

pub record Valid (n : ℕ) (s : Coex) : Type 0 where
  pub tracked : All (Tracked n) s.conn_hash
  pub known : All IsKnown s.profile_list

-- Two states with the same connections and profiles.
abbrev pub Same : Coex → Coex → Type 0
Same s t = (s.conn_hash ≡ t.conn_hash) × (s.profile_list ≡ t.profile_list)

pub Valid-Same : (n : ℕ) (s t : Coex) → Same s t → Valid n t → Valid n s
Valid-Same n s t e v = record {
  tracked = subst (All (Tracked n)) (sym e.0) v.tracked;
  known = subst (All IsKnown) (sym e.1) v.known;
}

pub rtk_vendor_cmd_to_fw-Same :
    (op len : ℕ) (bytes : List ℕ) (s : Coex) → Same (rtk_vendor_cmd_to_fw op len bytes s) s
unfolding rtk_vendor_cmd_to_fw
rtk_vendor_cmd_to_fw-Same op len bytes s = ground arith

pub rtk_notify_profileinfo_to_fw-Same : (s : Coex) → Same (rtk_notify_profileinfo_to_fw s) s
unfolding rtk_notify_profileinfo_to_fw rtk_vendor_cmd_to_fw
rtk_notify_profileinfo_to_fw-Same s = ground arith

pub All-Tracked-le : (n m : ℕ) (cs : List Conn) → n ≤ m → All (Tracked n) cs → All (Tracked m) cs
All-Tracked-le n m [] h a = tt
All-Tracked-le n m (c ∷ cs) h a = (Tracked-le n m c h a.0, All-Tracked-le n m cs h a.1)

pub Valid-le : (n m : ℕ) (s : Coex) → n ≤ m → Valid n s → Valid m s
Valid-le n m s h v = record {
  tracked = All-Tracked-le n m s.conn_hash h v.tracked;
  known = v.known;
}

pub All-get_elem? {ℓ} :
    {A : Type ℓ} (P : A → Type 0) (xs : List A) (i : ℕ) (x : A)
    → get_elem? xs i ≡ some x
    → All P xs
    → P x
All-get_elem? P [] i x e a = absurd (ground arith)
All-get_elem? P (y ∷ ys) zero x e a = subst P (ground arith) a.0
All-get_elem? P (y ∷ ys) (suc i) x e a = All-get_elem? P ys i x e a.1

pub on_conn-Valid :
    (n m p : ℕ) (f : Conn → Conn × Bool) (s : Coex)
    → n ≤ m
    → ((c : Conn) → Tracked n c → Tracked m (f c).0)
    → Valid n s
    → Valid m (on_conn p f s)
unfolding on_conn
on_conn-Valid n m p f s h keep v =
    option_cases (Valid m) (get_elem? s.conn_hash p) _ _ (λ e. Valid-le n m s h v)
      λ c e.
        let a : All (Tracked m) (set s.conn_hash p (f c).0) =
          All-set (Tracked m) s.conn_hash p (f c).0 (All-Tracked-le n m s.conn_hash h v.tracked)
            (keep c (All-get_elem? (Tracked n) s.conn_hash p c e v.tracked)) in
        let s' : Coex = record s { conn_hash = set s.conn_hash p (f c).0 } in
        if_cases (Valid m) (f c).1 _ _
          (λ b.
            Valid-Same m (rtk_notify_profileinfo_to_fw s') s' (rtk_notify_profileinfo_to_fw-Same s')
              (record { tracked = a; known = v.known }))
          (λ b. record { tracked = a; known = v.known })

pub update_profile_state-Valid :
    (n p i : ℕ) (b : Bool) (s : Coex) → Valid n s → Valid n (update_profile_state p i b s)
unfolding update_profile_state
update_profile_state-Valid n p i b s v =
    on_conn-Valid n n p (mark i b) s (omega arith) (mark-Tracked n i b) v

pub update_profile_connection_up-Valid :
    (n p i : ℕ) (s : Coex)
    → i < 8
    → i ≢ 4
    → n < 255
    → Valid n s
    → Valid (suc n) (update_profile_connection p i true s)
unfolding update_profile_connection
update_profile_connection_up-Valid n p i s small other room v =
    on_conn-Valid n (suc n) p (count_up i) s (omega arith)
      (λ c t. count_up-Tracked n i c small other t room) v

pub update_profile_connection_down-Valid :
    (n p i : ℕ) (s : Coex)
    → i < 8
    → i ≢ 4
    → n ≤ 255
    → Valid n s
    → Valid n (update_profile_connection p i false s)
unfolding update_profile_connection
update_profile_connection_down-Valid n p i s small other room v =
    on_conn-Valid n n p (count_down i) s (omega arith)
      (λ c t. count_down-Tracked n i c small other t room) v

pub update_hid_active_state-Valid :
    (n h interval : ℕ) (s : Coex)
    → n < 255
    → Valid n s
    → Valid (suc n) (update_hid_active_state h interval s)
unfolding update_hid_active_state
update_hid_active_state-Valid n h interval s room v =
    option_cases (Valid (suc n)) (find_connection_by_handle s.conn_hash h) _ _
      (λ e. Valid-le n (suc n) s (omega arith) v)
      λ p e.
        on_conn-Valid n (suc n) p (hid_active interval) s (omega arith)
          (λ c t. hid_active-Tracked n c t interval room) v
