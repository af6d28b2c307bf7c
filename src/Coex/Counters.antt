-- ===== src/Coex/Counters.antt =====
-- One connection's profiles in rtk_coex.c: the counters, the two bitmaps and the timers. Each
-- function gives the connection back and, where the source has one, its `need_update`.
pub mod Tracked
pub mod Interval
use br_external.Prelude.{
  ℕ, ◌+◌, ◌%◌, Bool, true, false, not, ◌&&◌, ◌||◌, if◌then◌else◌, ltb, ◌==◌, get_or, set, bit,
}
use br_external.Coex.State.{
  Conn, LinkType, profile_sco, profile_hid, profile_a2dp, profile_pan, profile_hid_interval,
  profile_hogp, profile_voice, no_bits, no_counts,
}

-- `is_profile_connected` and `is_profile_busy`
unfoldable pub is_profile_connected : Conn → ℕ → Bool
is_profile_connected c i = bit c.profile_bitmap i

unfoldable pub is_profile_busy : Conn → ℕ → Bool
is_profile_busy c i = bit c.profile_status i

unfoldable pub refcount : Conn → ℕ → ℕ
refcount c i = get_or c.profile_refcount i 0

-- `queue_delayed_work` of a work that is queued already changes nothing.
unfoldable pub rtk_check_setup_timer : Conn → ℕ → Conn
unfolding refcount
rtk_check_setup_timer c i =
    if i == profile_a2dp
    then record c { a2dp_packet_count = 0; a2dp_count_work = true }
    else if i == profile_pan
    then record c { pan_packet_count = 0; pan_count_work = true }
    else if (i == profile_hogp || i == profile_voice)
        && (refcount c profile_hogp == 0 && refcount c profile_voice == 0)
    then record c { hogp_packet_count = 0; voice_packet_count = 0; hogp_count_work = true }
    else c

unfoldable pub rtk_check_del_timer : Conn → ℕ → Conn
unfolding refcount
rtk_check_del_timer c i =
    if i == profile_a2dp
    then record c { a2dp_packet_count = 0; a2dp_count_work = false }
    else if i == profile_pan
    then record c { pan_packet_count = 0; pan_count_work = false }
    else if i == profile_hogp
    then record c {
      hogp_packet_count = 0;
      hogp_count_work = c.hogp_count_work && not (refcount c profile_voice == 0);
    }
    else if i == profile_voice
    then record c {
      voice_packet_count = 0;
      hogp_count_work = c.hogp_count_work && not (refcount c profile_hogp == 0);
    }
    else c

-- `update_profile_state`, up to the notice
unfoldable pub mark : ℕ → Bool → Conn → Conn × Bool
unfolding is_profile_connected is_profile_busy
mark i is_busy c =
    let c' = record c { profile_status = set c.profile_status i is_busy } in
    if not (is_profile_connected c i)
    then (c, false)
    else if is_busy
    then (if is_profile_busy c i then (c, false) else (c', true))
    else if is_profile_busy c i
    then (c', true)
    else (c, false)

-- The first use of a profile: its bit, that of SCO's state, and the timer.
unfoldable pub first_use : ℕ → Conn → Conn
unfolding rtk_check_setup_timer
first_use i c =
    rtk_check_setup_timer
      (record c {
        profile_bitmap = set c.profile_bitmap i true;
        profile_status = if i == profile_sco then set c.profile_status i true else c.profile_status;
      })
      i

unfoldable pub counted : ℕ → ℕ → Conn → Conn
counted i n c = record c { profile_refcount = set c.profile_refcount i n }

-- `update_profile_connection` with `is_add`
unfoldable pub count_up : ℕ → Conn → Conn × Bool
unfolding first_use counted refcount
count_up i c =
    let n = (refcount c i + 1) % 256 in
    if refcount c i == 0 then (counted i n (first_use i c), true) else (counted i n c, false)

-- The last use of a profile ends.
unfoldable pub last_use : ℕ → Conn → Conn
unfolding rtk_check_del_timer
last_use i c =
    rtk_check_del_timer
      (record c {
        profile_bitmap = set c.profile_bitmap i false;
        profile_status = set c.profile_status i false;
      })
      i

-- `profile_hid_interval` goes with `profile_hid`; a bit that is off stays off.
unfoldable pub clear_interval : ℕ → Conn → Conn
clear_interval i c =
    if i == profile_hid
    then record c { profile_bitmap = set c.profile_bitmap profile_hid_interval false }
    else c

-- `update_profile_connection` without `is_add`
unfoldable pub count_down : ℕ → Conn → Conn × Bool
unfolding last_use counted clear_interval refcount
count_down i c =
    let c' = counted i ((refcount c i + 255) % 256) c in
    if refcount c i == 0
    then (c, false)
    else if refcount c' i == 0
    then (clear_interval i (last_use i c'), true)
    else (c', false)

-- `disconn_profile`
unfoldable pub disconn_profile : ℕ → Conn → Conn × Bool
unfolding last_use counted refcount
disconn_profile i c =
    let c' = counted i ((refcount c i + 255) % 256) c in
    if refcount c i == 0
    then (c, false)
    else if refcount c' i == 0
    then (last_use i c', true)
    else (c', false)

-- A short interval: the connection counts as an active one.
unfoldable pub interval_on : Conn → Conn
unfolding counted refcount
interval_on c =
    let n = (refcount c profile_hid_interval + 1) % 256 in
    record (counted profile_hid_interval n c) {
      profile_bitmap = set c.profile_bitmap profile_hid_interval true;
      profile_status = if n == 1 then set c.profile_status profile_hid true else c.profile_status;
    }

unfoldable pub interval_off : Conn → Conn
unfolding counted refcount
interval_off c =
    let n = (refcount c profile_hid_interval + 255) % 256 in
    record (counted profile_hid_interval n c) {
      profile_bitmap = set c.profile_bitmap profile_hid_interval false;
      profile_status = if n == 0 then set c.profile_status profile_hid false else c.profile_status;
    }

-- `update_hid_active_state`, once the connection is found, up to the notice
unfoldable pub hid_active : ℕ → Conn → Conn × Bool
unfolding is_profile_connected interval_on interval_off
hid_active interval c =
    if not (is_profile_connected c profile_hid)
    then (c, false)
    else if ltb interval 60
    then (if is_profile_connected c profile_hid_interval then (c, false) else (interval_on c, true))
    else if is_profile_connected c profile_hid_interval
    then (interval_off c, true)
    else (c, false)

-- What a connection event leaves of a connection, new or known: `profile_status` and the timers
-- stay as they are.
unfoldable pub reset : LinkType → Conn → Conn
reset kind c = record c { profile_bitmap = no_bits; profile_refcount = no_counts; link_type = kind }
