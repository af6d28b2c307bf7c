-- ===== src/Coex/Media/Valid.antt =====
-- Counted packets and the timers keep what holds of connections and channels.
use br_external.Prelude.{
  ℕ, suc, ◌+◌, ◌%◌, ◌<◌, ◌≡◌, refl, sym, arith, subst, Bool, true, false, not, if◌then◌else◌,
  if_cases, ◌==◌, ltb, leb, ◌&&◌, ◌||◌, List, [], ◌∷◌, get_elem?, get_or, length, set, All-set,
  option_cases, get_or-set, length-set, set-set, get_elem?-set_self, Option-cases, inl, inr,
}
use br_external.Coex.State.{
  Conn, ProfInfo, Coex, profile_a2dp, profile_pan, profile_hogp, profile_voice, profile_sink,
  a2dp_media,
}
use br_external.Coex.Counters.{
  is_profile_connected, is_profile_busy, count_up, first_use, counted, refcount,
  rtk_check_setup_timer,
}
use br_external.Coex.Counters.Tracked.{Tracked}
use br_external.Coex.Notify.{
  on_conn, find_connection_by_handle, update_profile_state, update_profile_connection,
  hci_vendor_set_bitpool,
}
use br_external.Coex.Notify.Valid.{
  Valid, Valid-le, Valid-Same, All-get_elem?, on_conn-Valid, update_profile_state-Valid,
  rtk_vendor_cmd_to_fw-Same,
}
use br_external.Coex.Channels.{find_profile}
use br_external.Coex.Media.{
  ask, change, sink_up, send_bitpool, bitpool_at, media_starts, count_media, count_pan,
  count_packet, packets_count, is_l2cap, idle, count_a2dp_packet_timeout, count_pan_packet_timeout,
  count_hogp_packet_timeout,
}

pub change-Valid :
    (n p : ℕ) (f : Conn → Conn) (s : Coex)
    → ((c : Conn) → Tracked n c → Tracked n (f c))
    → Valid n s
    → Valid n (change p f s)
unfolding change
change-Valid n p f s keep v =
    option_cases (Valid n) (get_elem? s.conn_hash p) _ _ (λ _. v)
      λ c e. record {
        tracked =
            All-set (Tracked n) s.conn_hash p (f c) v.tracked
              (keep c (All-get_elem? (Tracked n) s.conn_hash p c e v.tracked));
        known = v.known;
      }

-- Packet counters, and a work that is queued from now on.
abbrev Queued : Conn → Conn → Type 0
Queued c d =
    (d.profile_bitmap ≡ c.profile_bitmap)
    × (d.profile_status ≡ c.profile_status)
    × (d.profile_refcount ≡ c.profile_refcount)
    × (c.a2dp_count_work ≡ true → d.a2dp_count_work ≡ true)
    × (c.pan_count_work ≡ true → d.pan_count_work ≡ true)
    × (c.hogp_count_work ≡ true → d.hogp_count_work ≡ true)

Queued-Tracked : (n : ℕ) (c d : Conn) → Queued c d → Tracked n c → Tracked n d
Queued-Tracked n c d q t = record {
  bits = rw (q.0) t.bits;
  counts = rw (q.2) t.counts;
  agree = λ j h h4. rw (q.0, q.2) (t.agree j h h4);
  interval = rw (q.0, q.2) t.interval;
  bounded = λ j. rw (q.2) (t.bounded j);
  a2dp_timer = λ h. q.3 (t.a2dp_timer (rw (q.2) at h));
  pan_timer = λ h. q.4 (t.pan_timer (rw (q.2) at h));
  hogp_timer = λ h. q.5 (t.hogp_timer (rw (q.2) at h));
  voice_timer = λ h. q.5 (t.voice_timer (rw (q.2) at h));
}

change-Queued-Valid :
    (n p : ℕ) (f : Conn → Conn) (s : Coex)
    → ((c : Conn) → Queued c (f c))
    → Valid n s
    → Valid n (change p f s)
change-Queued-Valid n p f s q v = change-Valid n p f s (λ c t. Queued-Tracked n c (f c) (q c) t) v

abbrev sink_bit : Conn → Conn
sink_bit c = record c { profile_bitmap = set c.profile_bitmap 7 true }

sink_bit-Tracked :
    (n : ℕ) (c : Conn) → n < 255 → Tracked n c → Tracked (suc n) (count_up 7 (sink_bit c)).0
unfolding count_up first_use counted rtk_check_setup_timer refcount
sink_bit-Tracked n c room t =
    let m = (get_or c.profile_refcount 7 0 + 1) % 256 in
    let at = λ (j : ℕ). get_or-set c.profile_refcount 7 j m 0 (omega (arith, t.counts)) in
    let on = λ (j : ℕ). get_or-set c.profile_bitmap 7 j true false (omega (arith, t.bits)) in
    let again = set-set c.profile_bitmap 7 true true in
    let b = t.bounded 7 in
    record {
      bits = ground (arith, t.bits, again, length-set c.profile_bitmap 7 true);
      counts = ground (arith, t.counts, length-set c.profile_refcount 7 m);
      agree = λ j h h4. ground (arith, t.agree j h h4, again, on j, at j);
      interval = λ h. ground (arith, t.interval, again, on 4, at 4);
      bounded = λ j. ground (arith, t.bounded j, at j);
      a2dp_timer = λ h. ground (arith, t.a2dp_timer, at 2);
      pan_timer = λ h. ground (arith, t.pan_timer, at 3);
      hogp_timer = λ h. ground (arith, t.hogp_timer, at 5);
      voice_timer = λ h. ground (arith, t.voice_timer, at 6);
    }

-- A change, and then one with a notice, are one.
on_conn-change :
    (p : ℕ) (f : Conn → Conn × Bool) (g : Conn → Conn) (s : Coex)
    → on_conn p f (change p g s) ≡ on_conn p (λ c. f (g c)) s
unfolding on_conn change
on_conn-change p f g s = elim (Option-cases (get_elem? s.conn_hash p)) [
  | inl e ↦ ground (arith, e)
  | inr (c, e) ↦ ground (
    arith,
    e,
    get_elem?-set_self s.conn_hash p c (g c) e,
    set-set s.conn_hash p (g c) (f (g c)).0,
  )
]

send_bitpool-Valid :
    (n len : ℕ) (bytes : List ℕ) (s : Coex) → Valid n s → Valid n (send_bitpool len bytes s)
unfolding send_bitpool
send_bitpool-Valid n len bytes s v =
    let i = bitpool_at bytes in
    let s' : Coex = record s { outside = s.outside || leb (length bytes) i } in
    if_cases (Valid n) (ltb 100 len) _ _
      (λ _.
        Valid-Same n _ s'
          (rtk_vendor_cmd_to_fw-Same hci_vendor_set_bitpool 1 (get_or bytes i 0 ∷ []) s')
          (record { tracked = v.tracked; known = v.known }))
      (λ _. v)

sink_up-Valid : (n p : ℕ) (s : Coex) → n < 255 → Valid n s → Valid (suc n) (sink_up p s)
unfolding sink_up update_profile_connection
sink_up-Valid n p s room v =
    let connected = ask p (λ c. is_profile_connected c profile_sink) s in
    update_profile_state-Valid (suc n) p 7 true _ (
      if_cases (Valid (suc n)) connected _ _ (λ _. Valid-le n (suc n) s (omega arith) v)
        λ _. subst (Valid (suc n)) (sym (on_conn-change p (count_up 7) sink_bit s)) (
          on_conn-Valid n (suc n) p (λ c. count_up 7 (sink_bit c)) s (omega arith)
            (λ c t. sink_bit-Tracked n c room t) v))

media_starts-Valid :
    (n p len : ℕ) (out : Bool) (bytes : List ℕ) (s : Coex)
    → n < 255
    → Valid n s
    → Valid (suc n) (media_starts p len out bytes s)
unfolding media_starts
media_starts-Valid n p len out bytes s room v =
    let s' = update_profile_state p profile_a2dp true s in
    let v' = update_profile_state-Valid n p profile_a2dp true s v in
    send_bitpool-Valid (suc n) len bytes _ (
      if_cases (Valid (suc n)) out _ _ (λ _. Valid-le n (suc n) s' (omega arith) v')
        (λ _. sink_up-Valid n p s' room v'))

count_media-Valid :
    (n p len : ℕ) (out : Bool) (bytes : List ℕ) (s : Coex)
    → n < 255
    → Valid n s
    → Valid (suc n) (count_media p len out bytes s)
unfolding count_media
count_media-Valid n p len out bytes s room v =
    change-Queued-Valid (suc n) p _ _ (λ c. (refl, refl, refl, λ h. h, λ h. h, λ h. h))
      (if_cases (Valid (suc n)) (ask p (λ c. is_profile_busy c profile_a2dp) s) _ _
        (λ _. Valid-le n (suc n) s (omega arith) v)
        (λ _. media_starts-Valid n p len out bytes s room v))

count_packet-Valid :
    (n p : ℕ) (d : ProfInfo) (len : ℕ) (out : Bool) (bytes : List ℕ) (s : Coex)
    → n < 255
    → Valid n s
    → Valid (suc n) (count_packet p d len out bytes s)
unfolding count_packet count_pan
count_packet-Valid n p d len out bytes s room v =
    let same = Valid-le n (suc n) s (omega arith) v in
    if_cases (Valid (suc n)) (d.profile_index == profile_a2dp && d.flags == a2dp_media) _ _
      (λ _. count_media-Valid n p len out bytes s room v)
      λ _.
        if_cases (Valid (suc n)) (d.profile_index == profile_pan) _ _
          (λ _.
            change-Queued-Valid (suc n) p _ s (λ c. (refl, refl, refl, λ h. h, λ h. h, λ h. h))
              same)
          (λ _. same)

pub packets_count-Valid :
    (n h scid len : ℕ) (out : Bool) (bytes : List ℕ) (s : Coex)
    → n < 255
    → Valid n s
    → Valid (suc n) (packets_count h scid len out bytes s)
unfolding packets_count
packets_count-Valid n h scid len out bytes s room v =
    let P : Coex → Type 0 = Valid (suc n) in
    let same = Valid-le n (suc n) s (omega arith) v in
    option_cases P (find_connection_by_handle s.conn_hash h) _ _ (λ _. same)
      λ p _.
        if_cases P (not (ask p (λ c. is_l2cap c.link_type) s)) _ _ (λ _. same)
          λ _.
            option_cases P (find_profile (not out) s.profile_list h scid) _ _ (λ _. same)
              λ q _.
                option_cases P (get_elem? s.profile_list q) _ _ (λ _. same)
                  λ d _. count_packet-Valid n p d len out bytes s room v

-- A timer: profiles become idle or busy, and the work is queued again.
turn_if-Valid :
    (n p i : ℕ) (b turn : Bool) (s : Coex)
    → Valid n s
    → Valid n (if turn then update_profile_state p i b s else s)
turn_if-Valid n p i b turn s v =
    if_cases (Valid n) turn _ _ (λ _. update_profile_state-Valid n p i b s v) (λ _. v)

pub count_a2dp_packet_timeout-Valid :
    (n p : ℕ) (s : Coex) → Valid n s → Valid n (count_a2dp_packet_timeout p s)
unfolding count_a2dp_packet_timeout
count_a2dp_packet_timeout-Valid n p s v =
    change-Queued-Valid n p _ _ (λ c. (refl, refl, refl, λ h. refl, λ h. h, λ h. h))
      (turn_if-Valid n p profile_sink false _ _ (turn_if-Valid n p profile_a2dp false _ s v))

pub count_pan_packet_timeout-Valid :
    (n p : ℕ) (s : Coex) → Valid n s → Valid n (count_pan_packet_timeout p s)
unfolding count_pan_packet_timeout
count_pan_packet_timeout-Valid n p s v =
    let busy = ask p (λ c. is_profile_busy c profile_pan) s in
    change-Queued-Valid n p _ _ (λ c. (refl, refl, refl, λ h. h, λ h. refl, λ h. h))
      (if_cases (Valid n) _ _ _
        (λ _.
          if_cases (Valid n) busy _ _ (λ _. v)
            (λ _. update_profile_state-Valid n p profile_pan true s v))
        (λ _. turn_if-Valid n p profile_pan false busy s v))

pub count_hogp_packet_timeout-Valid :
    (n p : ℕ) (s : Coex) → Valid n s → Valid n (count_hogp_packet_timeout p s)
unfolding count_hogp_packet_timeout idle
count_hogp_packet_timeout-Valid n p s v =
    change-Queued-Valid n p _ _ (λ c. (refl, refl, refl, λ h. h, λ h. h, λ h. refl))
      (turn_if-Valid n p profile_voice false _ _ (
        change-Queued-Valid n p _ _ (λ c. (refl, refl, refl, λ h. h, λ h. h, λ h. h))
          (turn_if-Valid n p profile_hogp false _ s v)))
