-- ===== src/Coex/Tests.antt =====
-- Tests of the model of rtk_coex.c, and its theorems at concrete inputs.
use br_external.Prelude.{
  ℕ, ◌≡◌, refl, arith, true, false, none, List, [], ◌∷◌, ◌++◌, replicate, length, word, set,
  remove_at, take, ◌==◌, if◌then◌else◌,
}
use br_external.Coex.State.{Conn, Coex, Pools, L2Buff, HciEv, zero_conn, zero_prof, no_bits}
use br_external.Coex.Hci.{HasSizes, linux}
use br_external.Coex.Pools.{rtl_alloc_buff, ev_filter_out, rtk_btcoex_evt_enqueue}
use br_external.Coex.Counters.{
  refcount, count_up, count_down, hid_active, is_profile_connected, is_profile_busy,
}
use br_external.Coex.Counters.Interval
use br_external.Coex.Counters.Interval.{hid_active-idle}
use br_external.Coex.Notify.Report.{read_report, told, rtk_notify_profileinfo_to_fw-told}
use br_external.Coex.Links.{u8_at, u16_at, rtk_handle_disconnect_complete_evt}
use br_external.Coex.Events.Disconnect.{left_over, rtk_handle_disconnect_complete_evt-Gone}
use br_external.Coex.Signals.{rtl_ev_work, rtl_l2_work}
use br_external.Coex.Signals.Drained.{rtl_l2_work-drained}
use br_external.Coex.Parser.{assembly, rtk_btcoex_parse_event}
use br_external.Coex.Parser.Delivery.{
  Delivered, rtk_btcoex_parse_event-Delivered, kept_len, rtk_btcoex_evt_enqueue-kept,
}
use br_external.Coex.Parser.Bytes.{Valid, feed}
use br_external.Coex.Parser.Whole.{stored_in, rtk_btcoex_parse_event-feed}
use br_external.Coex.Notify
use br_external.Coex.Notify.{
  handle_count, entries, entry, buffer_size, rtk_vendor_cmd_to_fw, find_connection_by_handle,
  rtk_notify_profileinfo_to_fw,
}
use br_external.Coex.Moves.{Move, apply, run, opens, event, signal}
use br_external.Coex.Moves.Valid.{LowAlong, run-Valid}

linux-HasSizes : HasSizes linux
linux-HasSizes = record { header = refl; largest = refl }

abbrev no_pools : Pools
no_pools = record {
  buffers = false;
  ev_used_list = [];
  ev_free_list = [];
  l2_used_list = [];
  l2_free_list = [];
  fw_work = false;
  l2_work = false;
}

abbrev pub closed : Coex
unfolding rtl_alloc_buff
closed = record {
  conn_hash = [];
  profile_list = [];
  profile_status = no_bits;
  ispairing = false;
  isinquirying = false;
  ispaging = false;
  hci_reversion = 0;
  lmp_subversion = 0;
  running = false;
  profileinfo_cmd = false;
  frags = record { expect = 0; elen = 0; tbuff = none; back_buff = replicate 260 0 };
  pools = rtl_alloc_buff true no_pools;
  kernel = record { hdev = true; hci_up = true; conn_blocks = []; prof_blocks = []; given = [] };
  cmd_q = [];
  outside = false;
}

-- An ACL link with the handle 11, and L2CAP signals over it.
abbrev acl_up : List ℕ
acl_up = 0x03 ∷ 0x0b ∷ 0 ∷ 0x0b ∷ 0 ∷ 1 ∷ 2 ∷ 3 ∷ 4 ∷ 5 ∷ 6 ∷ 1 ∷ 0 ∷ []

abbrev signal_bytes : ℕ → List ℕ → List ℕ
signal_bytes code rest = 0x0b ∷ 0x20 ∷ 12 ∷ 0 ∷ 8 ∷ 0 ∷ 1 ∷ 0 ∷ code ∷ 1 ∷ 4 ∷ 0 ∷ rest

-- The computer opens a HID channel (PSM 0x11) from 0x40, and the device answers with 0x50.
abbrev hid_asked : L2Buff
hid_asked = record { place = 0; bytes = signal_bytes 0x02 (0x11 ∷ 0 ∷ 0x40 ∷ 0 ∷ []); out = true }

abbrev hid_answered : L2Buff
hid_answered = record {
  place = 1;
  bytes = signal_bytes 0x03 (0x50 ∷ 0 ∷ 0x40 ∷ 0 ∷ 0 ∷ 0 ∷ 0 ∷ 0 ∷ []);
  out = false;
}

abbrev session : List Move
session = opens true ∷ event acl_up ∷ signal hid_asked ∷ signal hid_answered ∷ []

-- Three commands: the empty report at the start, and the report of the HID profile.
session_sent :
    (run linux session closed).cmd_q
    ≡ (0x1b ∷ 0xfc ∷ 1 ∷ 0 ∷ []) ∷ (0x19 ∷ 0xfc ∷ 5 ∷ 1 ∷ 0x0b ∷ 0 ∷ 2 ∷ 0 ∷ []) ∷ []
unfolding run closed word handle_count entries entry buffer_size rtk_vendor_cmd_to_fw
session_sent = refl

session_low : LowAlong linux session closed
unfolding apply closed
session_low = omega arith

run-Valid_example : Notify.Valid.Valid 255 (run linux session closed)
unfolding closed
run-Valid_example = run-Valid linux session closed (record { tracked = tt; known = tt }) session_low

abbrev opened_up : Coex
unfolding closed
opened_up = record closed { running = true }

opened_up-Valid : Valid opened_up.frags
unfolding opened_up
opened_up-Valid = record { room = refl; bytes = omega arith; within = tt }

rtk_btcoex_parse_event-feed_example :
    (rtk_btcoex_parse_event linux acl_up opened_up
      ≡ (true, stored_in (feed linux acl_up (assembly opened_up)) opened_up))
    × ((rtk_btcoex_parse_event linux acl_up opened_up).1.outside ≡ opened_up.outside)
    × Valid (rtk_btcoex_parse_event linux acl_up opened_up).1.frags
unfolding opened_up
rtk_btcoex_parse_event-feed_example =
    rtk_btcoex_parse_event-feed linux acl_up opened_up linux-HasSizes (omega arith) opened_up-Valid
      refl

rtk_btcoex_parse_event-Delivered_example :
    Delivered linux acl_up opened_up (rtk_btcoex_parse_event linux acl_up opened_up).1
unfolding opened_up
rtk_btcoex_parse_event-Delivered_example =
    rtk_btcoex_parse_event-Delivered linux 0x03 (0 ∷ 0x0b ∷ 0 ∷ 1 ∷ 2 ∷ 3 ∷ 4 ∷ 5 ∷ 6 ∷ 1 ∷ 0 ∷ [])
      opened_up linux-HasSizes (omega arith) (omega arith) (omega arith) opened_up-Valid refl refl

-- A keyboard: one HID channel in use, and an interval that was short three times.
abbrev keyboard : Conn
keyboard = record zero_conn {
  handle = 11;
  profile_bitmap = set no_bits 1 true;
  profile_status = no_bits;
  profile_refcount = 0 ∷ 1 ∷ 0 ∷ 0 ∷ 3 ∷ 0 ∷ 0 ∷ 0 ∷ [];
}

keyboard-HasSizes : Interval.HasSizes keyboard
keyboard-HasSizes = record { bits = refl; states = refl; counts = refl }

hid_active-idle_example :
    let d = hid_active 12 (count_up 1 (count_down 1 keyboard).0).0 in
    (d.1 ≡ true) × (is_profile_connected d.0 4 ≡ true) × (is_profile_busy d.0 1 ≡ false)
unfolding refcount
hid_active-idle_example =
    hid_active-idle 3 12 keyboard keyboard-HasSizes refl refl (omega arith) (omega arith)
      (omega arith)

-- A keyboard, and a link without a profile.
abbrev two_links : Coex
unfolding closed
two_links = record closed {
  running = true;
  profileinfo_cmd = true;
  conn_hash = keyboard ∷ record zero_conn { handle = 12 } ∷ [];
  profile_list =
      record zero_prof { handle = 11; psm = 0x11; scid = 0x40; dcid = 0x50; profile_index = 1 }
      ∷ record zero_prof { handle = 12; psm = 1; scid = 0x41; dcid = 0x51 }
      ∷ [];
}

rtk_notify_profileinfo_to_fw-told_example :
    (command : List ℕ) × ((rtk_notify_profileinfo_to_fw two_links).cmd_q
      ≡ two_links.cmd_q ++ command ∷ [])
    × (read_report command ≡ told two_links.conn_hash)
    × ((rtk_notify_profileinfo_to_fw two_links).outside ≡ two_links.outside)
unfolding handle_count word two_links
rtk_notify_profileinfo_to_fw-told_example =
    rtk_notify_profileinfo_to_fw-told two_links refl refl refl refl (omega arith)
      ((omega arith, omega arith, omega arith), ((omega arith, omega arith, omega arith), tt))

-- The link of the keyboard ends.
abbrev gone : List ℕ
gone = 0x05 ∷ 4 ∷ 0 ∷ 11 ∷ 0 ∷ 0x13 ∷ []

rtk_handle_disconnect_complete_evt-Gone_example :
    let t = rtk_handle_disconnect_complete_evt gone two_links in
    let done = u8_at gone 2 == 0 in
    (t.conn_hash ≡ (if done then remove_at two_links.conn_hash 0 else two_links.conn_hash))
    × (t.profile_list ≡ (
        if done
        then left_over keyboard.link_type (u16_at gone 3) two_links.profile_list
        else two_links.profile_list))
unfolding find_connection_by_handle two_links
rtk_handle_disconnect_complete_evt-Gone_example =
    rtk_handle_disconnect_complete_evt-Gone gone 0 keyboard two_links refl refl

-- A disconnection in the queue of events, and a signal in the other one.
abbrev waiting : Coex
unfolding two_links
waiting = record two_links {
  pools = record {
    buffers = true;
    ev_used_list = record { place = 0; bytes = gone; len = 6 } ∷ [];
    ev_free_list = [];
    l2_used_list = hid_asked ∷ [];
    l2_free_list = hid_answered ∷ [];
    fw_work = true;
    l2_work = true;
  };
}

rtl_l2_work-drained_example :
    (rtl_l2_work linux (rtl_ev_work linux waiting)).pools ≡ record waiting.pools {
      ev_used_list = [];
      ev_free_list = waiting.pools.ev_free_list ++ waiting.pools.ev_used_list;
      l2_used_list = [];
      l2_free_list = waiting.pools.l2_free_list ++ waiting.pools.l2_used_list;
      fw_work = false;
      l2_work = false;
    }
rtl_l2_work-drained_example = rtl_l2_work-drained linux waiting

abbrev one_free : Pools
one_free = record no_pools {
  buffers = true;
  ev_free_list = record { place = 7; bytes = replicate 32 0; len = 0 } ∷ [];
}

rtk_btcoex_evt_enqueue-kept_example :
    (node : HciEv) × ((rtk_btcoex_evt_enqueue linux gone (length gone) one_free).ev_used_list
      ≡ one_free.ev_used_list ++ node ∷ [])
    × (node.len ≡ kept_len gone)
    × (take (kept_len gone) node.bytes ≡ take 32 gone)
unfolding ev_filter_out
rtk_btcoex_evt_enqueue-kept_example =
    rtk_btcoex_evt_enqueue-kept linux gone gone
      (record { place = 7; bytes = replicate 32 0; len = 0 }) [] one_free refl refl refl refl
