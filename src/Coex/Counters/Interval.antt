-- ===== src/Coex/Counters/Interval.antt =====
-- The profile for short intervals in rtk_coex.c, whose counter is left behind.
use br_external.Prelude.{
  ℕ, ◌<◌, ◌≡◌, ◌∙◌, arith, true, false, length, set, bit, length-set, get_or-set,
}
use br_external.Coex.State.{Conn}
use br_external.Coex.Counters.{
  refcount, counted, first_use, count_up, last_use, count_down, clear_interval, interval_on,
  interval_off, hid_active, rtk_check_setup_timer, rtk_check_del_timer, is_profile_connected,
  is_profile_busy,
}

-- The sizes of the words and of the counters.
pub record HasSizes (c : Conn) : Type 0 where
  pub bits : length c.profile_bitmap ≡ 16
  pub states : length c.profile_status ≡ 16
  pub counts : length c.profile_refcount ≡ 8

abbrev Left : ℕ → Conn → Type 0
Left k c =
    HasSizes c
    × (refcount c 1 ≡ 0)
    × (refcount c 4 ≡ k)
    × (bit c.profile_bitmap 4 ≡ false)
    × (bit c.profile_status 1 ≡ false)

down :
    (k : ℕ) (c : Conn)
    → HasSizes c
    → refcount c 1 ≡ 1
    → refcount c 4 ≡ k
    → Left k (count_down 1 c).0
unfolding count_down last_use counted clear_interval rtk_check_del_timer refcount
down k c z one some_left =
    let off = set c.profile_bitmap 1 false in
    let r = λ (j : ℕ). get_or-set c.profile_refcount 1 j 0 0 (omega (arith, z.counts)) in
    let b =
      get_or-set off 4 4 false false (omega (arith, z.bits, length-set c.profile_bitmap 1 false)) in
    let s = get_or-set c.profile_status 1 1 false false (omega (arith, z.states)) in
    let lb = length-set off 4 false ∙ length-set c.profile_bitmap 1 false in
    let ls = length-set c.profile_status 1 false in
    let lr = length-set c.profile_refcount 1 0 in
    (
      record {
        bits = ground (arith, one, lb, z.bits, r 1);
        states = ground (arith, one, ls, z.states, r 1);
        counts = ground (arith, one, lr, z.counts, r 1);
      },
      ground (arith, one, r 1),
      ground (arith, one, some_left, r 1, r 4),
      ground (arith, one, r 1, b),
      ground (arith, one, r 1, s),
    )

abbrev Again : ℕ → Conn → Type 0
Again k c =
    HasSizes c
    × (refcount c 4 ≡ k)
    × (bit c.profile_bitmap 1 ≡ true)
    × (bit c.profile_bitmap 4 ≡ false)
    × (bit c.profile_status 1 ≡ false)

up : (k : ℕ) (c : Conn) → Left k c → Again k (count_up 1 c).0
unfolding count_up first_use counted rtk_check_setup_timer refcount
up k c l =
    let z = l.0 in
    let r = λ (j : ℕ). get_or-set c.profile_refcount 1 j 1 0 (omega (arith, z.counts)) in
    let b = λ (j : ℕ). get_or-set c.profile_bitmap 1 j true false (omega (arith, z.bits)) in
    let lb = length-set c.profile_bitmap 1 true in
    let lr = length-set c.profile_refcount 1 1 in
    (
      record {
        bits = ground (arith, l.1, lb, z.bits);
        states = ground (arith, l.1, z.states);
        counts = ground (arith, l.1, lr, z.counts);
      },
      ground (arith, l.1, l.2, r 4),
      ground (arith, l.1, b 1),
      ground (arith, l.1, l.3, b 4),
      ground (arith, l.1, l.4),
    )

-- A connection with one HID channel in use, whose interval was short `k` times, 0 < k < 255: the
-- channel is closed and opened again, and the interval is short again. Then the short interval is
-- recorded and a notice to the controller is due (the second result of `hid_active`), but HID does not become busy: the old count was left, so the counter does
-- not come to 1.
pub hid_active-idle :
    (k interval : ℕ) (c : Conn)
    → HasSizes c
    → refcount c 1 ≡ 1
    → refcount c 4 ≡ k
    → 0 < k
    → k < 255
    → interval < 60
    → let d = hid_active interval (count_up 1 (count_down 1 c).0).0 in
      (d.1 ≡ true) × (is_profile_connected d.0 4 ≡ true) × (is_profile_busy d.0 1 ≡ false)
unfolding hid_active interval_on interval_off counted refcount is_profile_connected is_profile_busy
hid_active-idle k interval c z one some_left pos room short =
    let d = (count_up 1 (count_down 1 c).0).0 in
    let a = up k (count_down 1 c).0 (down k c z one some_left) in
    let on = get_or-set d.profile_bitmap 4 4 true false (omega (arith, a.0.bits)) in
    (
      ground (arith, a.2, a.3),
      ground (arith, a.1, a.2, a.3, on),
      ground (arith, a.1, a.2, a.3, a.4),
    )
