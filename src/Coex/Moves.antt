-- ===== src/Coex/Moves.antt =====
-- The entry points of rtk_coex.c as moves of one machine. A work handles its nodes one by one and
-- gives the lock back in between, so a move is the handling of one node.
pub mod Valid
use br_external.Prelude.{ℕ, Bool, List, [], ◌∷◌}
use br_external.Coex.State.{Coex, L2Buff}
use br_external.Coex.Hci.{Hci}
use br_external.Coex.Media.{
  count_a2dp_packet_timeout, count_pan_packet_timeout, count_hogp_packet_timeout,
}
use br_external.Coex.Events.{rtk_btcoex_parse_cmd, rtk_parse_event_data}
use br_external.Coex.Parser.{rtk_btcoex_parse_event}
use br_external.Coex.Signals.{
  rtl_process_l2_sig, rtk_btcoex_parse_l2cap_data, rtk_btcoex_open, rtk_btcoex_close,
}

pub data Move : Type 0 where
  command : List ℕ → Move
  received : List ℕ → Move
  event : List ℕ → Move
  acl : List ℕ → Bool → Move
  signal : L2Buff → Move
  a2dp_timer pan_timer hogp_timer : ℕ → Move
  opens : Bool → Move
  closes : Move

unfoldable pub apply : Hci → Move → Coex → Coex
unfolding rtk_btcoex_parse_cmd rtk_btcoex_parse_event rtk_parse_event_data
    rtk_btcoex_parse_l2cap_data rtl_process_l2_sig count_a2dp_packet_timeout
    count_pan_packet_timeout count_hogp_packet_timeout rtk_btcoex_open rtk_btcoex_close
apply hci (command bytes) s = rtk_btcoex_parse_cmd hci bytes s
apply hci (received bytes) s = (rtk_btcoex_parse_event hci bytes s).1
apply hci (event bytes) s = rtk_parse_event_data hci bytes s
apply hci (acl bytes direction) s = rtk_btcoex_parse_l2cap_data hci bytes direction s
apply hci (signal l2) s = rtl_process_l2_sig hci l2 s
apply hci (a2dp_timer place) s = count_a2dp_packet_timeout place s
apply hci (pan_timer place) s = count_pan_packet_timeout place s
apply hci (hogp_timer place) s = count_hogp_packet_timeout place s
apply hci (opens hdev) s = rtk_btcoex_open hdev s
apply hci closes s = rtk_btcoex_close s

unfoldable pub run : Hci → List Move → Coex → Coex
unfolding apply
run hci [] s = s
run hci (m ∷ ms) s = run hci ms (apply hci m s)
