-- ===== src/Coex/Counters/Tracked.antt =====
-- The invariant of a connection in rtk_coex.c: its bitmap says which counters are not 0, and a
-- profile that is counted has its timer.
use br_external.Prelude.{
  ℕ, suc, subst, if_cases, ◌+◌, ◌%◌, get_or-replicate, ◌≤◌, ◌<◌, ◌≡◌, ◌≢◌, refl, sym, arith, Bool,
  true, false, not, if◌then◌else◌, ◌==◌, length, get_or, set, bit, length-set, get_or-set,
}
use br_external.Coex.State.{Conn, LinkType}
use br_external.Coex.Counters.{
  refcount, mark, counted, first_use, count_up, last_use, count_down, clear_interval,
  disconn_profile, interval_on, interval_off, hid_active, reset, rtk_check_setup_timer,
  rtk_check_del_timer, is_profile_connected,
}

-- For every profile but the one for short intervals, which is handled apart: the bit is set exactly
-- if the counter is not 0; for that one, only if. No counter is above `n`, and a counted profile's work is queued.
pub record Tracked (n : ℕ) (c : Conn) : Type 0 where
  pub bits : length c.profile_bitmap ≡ 16
  pub counts : length c.profile_refcount ≡ 8
  pub agree :
      (i : ℕ) → i < 8 → i ≢ 4 → bit c.profile_bitmap i ≡ not (get_or c.profile_refcount i 0 == 0)
  pub interval : bit c.profile_bitmap 4 ≡ true → get_or c.profile_refcount 4 0 ≢ 0
  pub bounded : (i : ℕ) → get_or c.profile_refcount i 0 ≤ n
  pub a2dp_timer : get_or c.profile_refcount 2 0 ≢ 0 → c.a2dp_count_work ≡ true
  pub pan_timer : get_or c.profile_refcount 3 0 ≢ 0 → c.pan_count_work ≡ true
  pub hogp_timer : get_or c.profile_refcount 5 0 ≢ 0 → c.hogp_count_work ≡ true
  pub voice_timer : get_or c.profile_refcount 6 0 ≢ 0 → c.hogp_count_work ≡ true

pub mark-Tracked : (n i : ℕ) (b : Bool) (c : Conn) → Tracked n c → Tracked n (mark i b c).0
unfolding mark
mark-Tracked n i b c t = record {
  bits = ground (arith, t.bits);
  counts = ground (arith, t.counts);
  agree = λ j h h4. ground (arith, t.agree j h h4);
  interval = λ h. ground (arith, t.interval);
  bounded = λ j. ground (arith, t.bounded j);
  a2dp_timer = λ h. ground (arith, t.a2dp_timer);
  pan_timer = λ h. ground (arith, t.pan_timer);
  hogp_timer = λ h. ground (arith, t.hogp_timer);
  voice_timer = λ h. ground (arith, t.voice_timer);
}

-- A connection event makes the connection of any block a tracked one, without profiles.
pub reset-Tracked : (k : LinkType) (c : Conn) → Tracked 0 (reset k c)
unfolding reset
reset-Tracked k c = record {
  bits = refl;
  counts = refl;
  agree = λ j h h4. ground (arith, get_or-replicate 16 j false, get_or-replicate {A = ℕ} 8 j 0);
  interval = λ h. ground arith;
  bounded = λ j. ground (arith, get_or-replicate {A = ℕ} 8 j 0);
  a2dp_timer = λ h. ground arith;
  pan_timer = λ h. ground arith;
  hogp_timer = λ h. ground arith;
  voice_timer = λ h. ground arith;
}

module _ (n i : ℕ) (c : Conn) (small : i < 8) (other : i ≢ 4) (t : Tracked n c) where
  count_at :
      (j v : ℕ)
      → get_or (set c.profile_refcount i v) j 0
        ≡ (if i == j then v else get_or c.profile_refcount j 0)
  count_at j v = get_or-set c.profile_refcount i j v 0 (omega (arith, t.counts))

  bit_at :
      (j : ℕ) (b : Bool)
      → get_or (set c.profile_bitmap i b) j false
        ≡ (if i == j then b else get_or c.profile_bitmap j false)
  bit_at j b = get_or-set c.profile_bitmap i j b false (omega (arith, t.bits))

  pub count_up-Tracked : n < 255 → Tracked (suc n) (count_up i c).0
  unfolding count_up first_use counted rtk_check_setup_timer refcount
  count_up-Tracked room =
      let m = (get_or c.profile_refcount i 0 + 1) % 256 in
      let b = t.bounded i in
      record {
        bits = ground (arith, t.bits, length-set c.profile_bitmap i true);
        counts = ground (arith, t.counts, length-set c.profile_refcount i m);
        agree = λ j h h4. ground (arith, t.agree j h h4, bit_at j true, count_at j m);
        interval = λ h. ground (arith, t.interval, bit_at 4 true, count_at 4 m);
        bounded = λ j. ground (arith, t.bounded j, count_at j m);
        a2dp_timer = λ h. ground (arith, t.a2dp_timer, count_at 2 m);
        pan_timer = λ h. ground (arith, t.pan_timer, count_at 3 m);
        hogp_timer = λ h. ground (arith, t.hogp_timer, count_at 5 m, t.voice_timer);
        voice_timer = λ h. ground (arith, t.voice_timer, count_at 6 m, t.hogp_timer);
      }

  pub disconn_profile-Tracked : n ≤ 255 → Tracked n (disconn_profile i c).0
  unfolding disconn_profile last_use counted rtk_check_del_timer refcount
  disconn_profile-Tracked room =
      let m = (get_or c.profile_refcount i 0 + 255) % 256 in
      let b = t.bounded i in
      let here = count_at i m in
      record {
        bits = ground (arith, t.bits, length-set c.profile_bitmap i false);
        counts = ground (arith, t.counts, length-set c.profile_refcount i m);
        agree = λ j h h4. ground (arith, t.agree j h h4, bit_at j false, count_at j m);
        interval = λ h. ground (arith, t.interval, bit_at 4 false, count_at 4 m);
        bounded = λ j. ground (arith, t.bounded j, count_at j m);
        a2dp_timer = λ h. ground (arith, t.a2dp_timer, count_at 2 m);
        pan_timer = λ h. ground (arith, t.pan_timer, count_at 3 m);
        hogp_timer = λ h. ground (arith, t.hogp_timer, count_at 5 m, count_at 6 m);
        voice_timer = λ h. ground (arith, t.voice_timer, count_at 5 m, count_at 6 m);
      }

-- The bit for short intervals is apart from the others, and so is its counter.
module _ (n : ℕ) (c : Conn) (t : Tracked n c) where
  bit_apart :
      (j : ℕ) (b : Bool)
      → get_or (set c.profile_bitmap 4 b) j false
        ≡ (if 4 == j then b else get_or c.profile_bitmap j false)
  bit_apart j b = get_or-set c.profile_bitmap 4 j b false (omega (arith, t.bits))

  count_apart :
      (j v : ℕ)
      → get_or (set c.profile_refcount 4 v) j 0
        ≡ (if 4 == j then v else get_or c.profile_refcount j 0)
  count_apart j v = get_or-set c.profile_refcount 4 j v 0 (omega (arith, t.counts))

  pub clear_interval-Tracked : (i : ℕ) → Tracked n (clear_interval i c)
  unfolding clear_interval
  clear_interval-Tracked i = record {
    bits = ground (arith, t.bits, length-set c.profile_bitmap 4 false);
    counts = ground (arith, t.counts);
    agree = λ j h h4. ground (arith, t.agree j h h4, bit_apart j false);
    interval = λ h. ground (arith, t.interval, bit_apart 4 false);
    bounded = λ j. ground (arith, t.bounded j);
    a2dp_timer = λ h. ground (arith, t.a2dp_timer);
    pan_timer = λ h. ground (arith, t.pan_timer);
    hogp_timer = λ h. ground (arith, t.hogp_timer);
    voice_timer = λ h. ground (arith, t.voice_timer);
  }

  pub hid_active-Tracked : (interval : ℕ) → n < 255 → Tracked (suc n) (hid_active interval c).0
  unfolding hid_active interval_on interval_off counted refcount is_profile_connected
  hid_active-Tracked interval room =
      let up = (get_or c.profile_refcount 4 0 + 1) % 256 in
      let down = (get_or c.profile_refcount 4 0 + 255) % 256 in
      record {
        bits = ground (
          arith,
          t.bits,
          length-set c.profile_bitmap 4 true,
          length-set c.profile_bitmap 4 false,
        );
        counts = ground (
          arith,
          t.counts,
          length-set c.profile_refcount 4 up,
          length-set c.profile_refcount 4 down,
        );
        agree = λ j h h4. ground (
          arith,
          t.agree j h h4,
          bit_apart j false,
          bit_apart j true,
          count_apart j up,
          count_apart j down,
        );
        interval = λ h. ground (
          arith,
          t.interval,
          t.bounded 4,
          bit_apart 4 false,
          bit_apart 4 true,
          count_apart 4 up,
          count_apart 4 down,
        );
        bounded = λ j.
            ground
              (arith, t.interval, t.bounded j, t.bounded 4, count_apart j up, count_apart j down);
        a2dp_timer = λ h. ground (arith, t.a2dp_timer, count_apart 2 up, count_apart 2 down);
        pan_timer = λ h. ground (arith, t.pan_timer, count_apart 3 up, count_apart 3 down);
        hogp_timer = λ h. ground (arith, t.hogp_timer, count_apart 5 up, count_apart 5 down);
        voice_timer = λ h. ground (arith, t.voice_timer, count_apart 6 up, count_apart 6 down);
      }

count_down_eq :
    (i : ℕ) (c : Conn)
    → (count_down i c).0 ≡ (
        if (disconn_profile i c).1
        then clear_interval i (disconn_profile i c).0
        else (disconn_profile i c).0)
unfolding count_down disconn_profile
count_down_eq i c = ground arith

-- `update_profile_connection` without `is_add` is `disconn_profile`, but for the short intervals.
pub count_down-Tracked :
    (n i : ℕ) (c : Conn) → i < 8 → i ≢ 4 → Tracked n c → n ≤ 255 → Tracked n (count_down i c).0
count_down-Tracked n i c small other t room =
    subst (λ d. Tracked n d) (sym (count_down_eq i c))
      (if_cases (λ d. Tracked n d) (disconn_profile i c).1 _ _
        (λ h. clear_interval-Tracked n _ (disconn_profile-Tracked n i c small other t room) i)
        (λ h. disconn_profile-Tracked n i c small other t room))

-- A higher bound.
pub Tracked-le : (n m : ℕ) (c : Conn) → n ≤ m → Tracked n c → Tracked m c
Tracked-le n m c h t = record {
  bits = t.bits;
  counts = t.counts;
  agree = t.agree;
  interval = t.interval;
  bounded = λ j. omega (arith, t.bounded j);
  a2dp_timer = t.a2dp_timer;
  pan_timer = t.pan_timer;
  hogp_timer = t.hogp_timer;
  voice_timer = t.voice_timer;
}
