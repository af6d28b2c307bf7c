-- ===== src/Coex/Moves/Valid.antt =====
-- Every move keeps the bitmap, the counters and the timers of every connection in step.
use br_external.Prelude.{
  ℕ, suc, ◌%◌, ◌≤◌, ◌<◌, arith, Bool, not, if_cases, ◌==◌, ◌||◌, ltb, List, [], ◌∷◌, length, drop,
  All, option_cases, get_or-All,
}
use br_external.Coex.State.{Conn, Coex, L2Buff}
use br_external.Coex.Hci.{Hci}
use br_external.Coex.Counters.Tracked.{Tracked}
use br_external.Coex.Notify.{find_connection_by_handle, hci_vendor_set_profile_report_command}
use br_external.Coex.Notify.Valid.{Valid, Valid-le, Valid-Same, Same, rtk_vendor_cmd_to_fw-Same}
use br_external.Coex.Channels.Valid.{
  handle_l2cap_con_req-Valid, handle_l2cap_con_rsp-Valid, handle_l2cap_discon_req-Valid,
}
use br_external.Coex.Media.Valid.{
  packets_count-Valid, count_a2dp_packet_timeout-Valid, count_pan_packet_timeout-Valid,
  count_hogp_packet_timeout-Valid,
}
use br_external.Coex.Links.{u8_at, u16_at}
use br_external.Coex.Events.{rtk_btcoex_parse_cmd}
use br_external.Coex.Events.Valid.{rtk_parse_event_data-Valid}
use br_external.Coex.Parser.{rtk_btcoex_parse_event}
use br_external.Coex.Signals.{
  rtl_process_l2_sig, keep_signal, rtl_l2_data_process, rtk_btcoex_parse_l2cap_data,
  check_profileinfo_cmd, opened, rtk_btcoex_open, rtk_btcoex_close,
}
use br_external.Coex.Moves.{
  Move, command, received, event, acl, signal, a2dp_timer, pan_timer, hogp_timer, opens, closes,
  apply, run,
}

rtl_process_l2_sig-Valid :
    (n : ℕ) (hci : Hci) (l2 : L2Buff) (s : Coex)
    → n < 255
    → Valid n s
    → Valid (suc n) (rtl_process_l2_sig hci l2 s)
unfolding rtl_process_l2_sig
rtl_process_l2_sig-Valid n hci l2 s room v =
    let h = u16_at l2.bytes 0 % 4096 in
    let code = u8_at l2.bytes 8 in
    let a = u16_at l2.bytes 12 in
    let b = u16_at l2.bytes 14 in
    let P : Coex → Type 0 = Valid (suc n) in
    if_cases P (code == hci.l2cap_conn_req) _ _
      (λ _. Valid-le n (suc n) _ (omega arith) (handle_l2cap_con_req-Valid n h a b l2.out s v))
      λ _.
        if_cases P (code == hci.l2cap_conn_rsp) _ _
          (λ _. handle_l2cap_con_rsp-Valid n h a b l2.out (u16_at l2.bytes 16) s room v)
          λ _.
            if_cases P (code == hci.l2cap_disconn_req) _ _
              (λ _.
                Valid-le n (suc n) _ (omega arith)
                  (handle_l2cap_discon_req-Valid n h a b l2.out s (omega arith) v))
              (λ _. Valid-le n (suc n) s (omega arith) v)

keep_signal-Same :
    (hci : Hci) (bytes : List ℕ) (out : Bool) (s : Coex) → Same (keep_signal hci bytes out s) s
unfolding keep_signal
keep_signal-Same hci bytes out s = ground arith

rtl_l2_data_process-Valid :
    (n : ℕ) (hci : Hci) (bytes : List ℕ) (out : Bool) (s : Coex)
    → n < 255
    → Valid n s
    → Valid (suc n) (rtl_l2_data_process hci bytes out s)
unfolding rtl_l2_data_process
rtl_l2_data_process-Valid n hci bytes out s room v =
    let h = u16_at bytes 0 % 4096 in
    let s' : Coex = record s { outside = s.outside || ltb (length bytes) 8 } in
    let w : Valid n s' = record { tracked = v.tracked; known = v.known } in
    let P : Coex → Type 0 = Valid (suc n) in
    let up : P s' = Valid-le n (suc n) s' (omega arith) w in
    option_cases P (find_connection_by_handle s.conn_hash h) _ _ (λ _. up)
      λ p _.
        if_cases P (u16_at bytes 6 == 0x0001) _ _
          (λ _. Valid-Same (suc n) _ s' (keep_signal-Same hci bytes out s') up)
          λ _.
            if_cases P _ _ _
              (λ _.
                packets_count-Valid n h (u16_at bytes 6) (u16_at bytes 4) out (drop 8 bytes) s' room
                  w)
              (λ _. up)

check_profileinfo_cmd-Same : (s : Coex) → Same (check_profileinfo_cmd s) s
unfolding check_profileinfo_cmd
check_profileinfo_cmd-Same s =
    rtk_vendor_cmd_to_fw-Same hci_vendor_set_profile_report_command 1 (0 ∷ []) s

rtk_btcoex_open-Valid :
    (n : ℕ) (hdev : Bool) (s : Coex) → Valid n s → Valid n (rtk_btcoex_open hdev s)
unfolding rtk_btcoex_open
rtk_btcoex_open-Valid n hdev s v =
    if_cases (Valid n) s.running _ _ (λ _. v)
      λ _.
        Valid-Same n _ (opened hdev s) (check_profileinfo_cmd-Same (opened hdev s))
          (record { tracked = tt; known = tt })

rtk_btcoex_close-Valid : (n : ℕ) (s : Coex) → Valid n s → Valid n (rtk_btcoex_close s)
unfolding rtk_btcoex_close
rtk_btcoex_close-Valid n s v =
    if_cases (Valid n) (not s.running) _ _ (λ _. v) (λ _. record { tracked = tt; known = tt })

command-Same : (hci : Hci) (bytes : List ℕ) (s : Coex) → Same (rtk_btcoex_parse_cmd hci bytes s) s
unfolding rtk_btcoex_parse_cmd
command-Same hci bytes s = ground arith

received-Same :
    (hci : Hci) (bytes : List ℕ) (s : Coex) → Same (rtk_btcoex_parse_event hci bytes s).1 s
unfolding rtk_btcoex_parse_event
received-Same hci bytes s = ground arith

apply-Valid : (hci : Hci) (m : Move) (s : Coex) → Valid 253 s → Valid 255 (apply hci m s)
unfolding apply rtk_btcoex_parse_l2cap_data
apply-Valid hci (command bytes) s v =
    Valid-le 253 255 _ (omega arith) (Valid-Same 253 _ s (command-Same hci bytes s) v)
apply-Valid hci (received bytes) s v =
    Valid-le 253 255 _ (omega arith) (Valid-Same 253 _ s (received-Same hci bytes s) v)
apply-Valid hci (event bytes) s v = rtk_parse_event_data-Valid 253 hci bytes s (omega arith) v
apply-Valid hci (acl bytes out) s v =
    if_cases (Valid 255) s.running _ _
      (λ _.
        Valid-le 254 255 _ (omega arith)
          (rtl_l2_data_process-Valid 253 hci bytes out s (omega arith) v))
      (λ _. Valid-le 253 255 s (omega arith) v)
apply-Valid hci (signal l2) s v =
    Valid-le 254 255 _ (omega arith) (rtl_process_l2_sig-Valid 253 hci l2 s (omega arith) v)
apply-Valid hci (a2dp_timer p) s v =
    Valid-le 253 255 _ (omega arith) (count_a2dp_packet_timeout-Valid 253 p s v)
apply-Valid hci (pan_timer p) s v =
    Valid-le 253 255 _ (omega arith) (count_pan_packet_timeout-Valid 253 p s v)
apply-Valid hci (hogp_timer p) s v =
    Valid-le 253 255 _ (omega arith) (count_hogp_packet_timeout-Valid 253 p s v)
apply-Valid hci (opens hdev) s v =
    Valid-le 253 255 _ (omega arith) (rtk_btcoex_open-Valid 253 hdev s v)
apply-Valid hci closes s v = Valid-le 253 255 _ (omega arith) (rtk_btcoex_close-Valid 253 s v)

-- No counter is near the end of its byte.
abbrev pub IsLow : Coex → Type 0
IsLow s = All (λ c. All (λ n. n ≤ 253) c.profile_refcount) s.conn_hash

-- So it is before each move of a run.
abbrev pub LowAlong : Hci → List Move → Coex → Type 0
LowAlong hci [] s = Unit
LowAlong hci (m ∷ ms) s = IsLow s × LowAlong hci ms (apply hci m s)

low-Tracked :
    (cs : List Conn)
    → All (λ c. All (λ n. n ≤ 253) c.profile_refcount) cs
    → All (Tracked 255) cs
    → All (Tracked 253) cs
low-Tracked [] l a = tt
low-Tracked (c ∷ cs) l a = (
  record {
    bits = a.0.bits;
    counts = a.0.counts;
    agree = a.0.agree;
    interval = a.0.interval;
    bounded = λ j. get_or-All (λ n. n ≤ 253) c.profile_refcount j 0 (omega arith) l.0;
    a2dp_timer = a.0.a2dp_timer;
    pan_timer = a.0.pan_timer;
    hogp_timer = a.0.hogp_timer;
    voice_timer = a.0.voice_timer;
  },
  low-Tracked cs l.1 a.1,
)

-- Along every sequence of entries into the code, of commands, bytes of events, events, ACL data,
-- signals, timers, openings and closings: where no counter of a connection is above 253 before any
-- of them, each connection is tracked at the end. For every profile but the one for short
-- intervals its bit is set exactly if its counter is not 0, and the timer of a counted profile is
-- queued. The blocks that `kmalloc` gives may hold anything, and any allocation may fail.
pub run-Valid :
    (hci : Hci) (ms : List Move) (s : Coex)
    → Valid 255 s
    → LowAlong hci ms s
    → Valid 255 (run hci ms s)
unfolding run
run-Valid hci [] s v l = v
run-Valid hci (m ∷ ms) s v l =
    run-Valid hci ms (apply hci m s)
      (apply-Valid hci m s
        (record { tracked = low-Tracked s.conn_hash l.0 v.tracked; known = v.known }))
      l.1
