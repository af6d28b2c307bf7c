-- ===== src/Coex/Media.antt =====
-- The packets of a connection that rtk_coex.c counts, and the timers that read the counters.
pub mod Valid
use br_external.Prelude.{
  ℕ, ◌+◌, ◌*◌, ◌%◌, ◌^◌, Bool, true, false, not, ◌&&◌, ◌||◌, if◌then◌else◌, ltb, leb, ◌==◌, Option,
  none, some, List, [], ◌∷◌, length, get_elem?, get_or, set, bit,
}
use br_external.Coex.State.{
  Conn, Coex, ProfInfo, LinkType, profile_a2dp, profile_pan, profile_hogp, profile_voice,
  profile_sink, a2dp_media,
}
use br_external.Coex.State.LinkType.{l2cap, sco, le, other_type}
use br_external.Coex.Counters.{is_profile_connected, is_profile_busy}
use br_external.Coex.Notify.{
  hci_vendor_set_bitpool, rtk_vendor_cmd_to_fw, find_connection_by_handle, update_profile_state,
  update_profile_connection,
}
use br_external.Coex.Channels.{find_profile}

abbrev pub pan_packet_limit : ℕ
pan_packet_limit = 5

-- A question about the connection at a place.
unfoldable pub ask : ℕ → (Conn → Bool) → Coex → Bool
ask place test s = elim (get_elem? s.conn_hash place) [ none ↦ false | some c ↦ test c ]

-- A change that no notice follows.
unfoldable pub change : ℕ → (Conn → Conn) → Coex → Coex
change place f s = elim (get_elem? s.conn_hash place) [
  | none ↦ s
  | some c ↦ record s { conn_hash = set s.conn_hash place (f c) }
]

-- The bitpool: behind the RTP header with its `cc` sources, and a byte, the third one.
unfoldable pub bitpool_at : List ℕ → ℕ
bitpool_at user_data = 12 + get_or user_data 0 0 % 16 * 4 + 1 + 2

unfoldable pub send_bitpool : ℕ → List ℕ → Coex → Coex
unfolding bitpool_at rtk_vendor_cmd_to_fw
send_bitpool len user_data s =
    let i = bitpool_at user_data in
    if ltb 100 len
    then rtk_vendor_cmd_to_fw hci_vendor_set_bitpool 1 (get_or user_data i 0 ∷ [])
        (record s { outside = s.outside || leb (length user_data) i })
    else s

-- What comes in goes to the sink.
unfoldable pub sink_up : ℕ → Coex → Coex
unfolding ask change is_profile_connected update_profile_connection update_profile_state
sink_up place s =
    let connected = ask place (λ c. is_profile_connected c profile_sink) s in
    let s' =
      if connected
      then s
      else update_profile_connection place profile_sink true (
          change place (λ c. record c { profile_bitmap = set c.profile_bitmap profile_sink true })
            s) in
    update_profile_state place profile_sink true s'

-- The first media packet after a pause.
unfoldable pub media_starts : ℕ → ℕ → Bool → List ℕ → Coex → Coex
unfolding update_profile_state sink_up send_bitpool
media_starts place len direction user_data s =
    let s' = update_profile_state place profile_a2dp true s in
    let s'' = if direction then s' else sink_up place s' in send_bitpool len user_data s''

unfoldable pub count_media : ℕ → ℕ → Bool → List ℕ → Coex → Coex
unfolding ask change is_profile_busy media_starts
count_media place len direction user_data s =
    let busy = ask place (λ c. is_profile_busy c profile_a2dp) s in
    let s' = if busy then s else media_starts place len direction user_data s in
    change place (λ c. record c { a2dp_packet_count = (c.a2dp_packet_count + 1) % 2 ^ 32 }) s'

unfoldable pub count_pan : ℕ → Coex → Coex
unfolding change
count_pan place s =
    change place (λ c. record c { pan_packet_count = (c.pan_packet_count + 1) % 2 ^ 32 }) s

abbrev pub is_l2cap : LinkType → Bool
is_l2cap l2cap = true
is_l2cap sco = false
is_l2cap le = false
is_l2cap (other_type n) = false

unfoldable pub count_packet : ℕ → ProfInfo → ℕ → Bool → List ℕ → Coex → Coex
unfolding count_media count_pan
count_packet place d len direction user_data s =
    if d.profile_index == profile_a2dp && d.flags == a2dp_media
    then count_media place len direction user_data s
    else if d.profile_index == profile_pan
    then count_pan place s
    else s

unfoldable pub packets_count : ℕ → ℕ → ℕ → Bool → List ℕ → Coex → Coex
unfolding find_connection_by_handle find_profile ask count_packet
packets_count h scid len direction user_data s = elim (find_connection_by_handle s.conn_hash h) [
  | none ↦ s
  | some place ↦
      if not (ask place (λ c. is_l2cap c.link_type) s)
      then s
      else elim (find_profile (not direction) s.profile_list h scid) [
        | none ↦ s
        | some p ↦ elim (get_elem? s.profile_list p) [
          | none ↦ s
          | some d ↦ count_packet place d len direction user_data s
        ]
      ]
]

-- A busy profile without packets is idle from now on.
unfoldable pub idle : ℕ → ℕ → Bool → Coex → Coex
unfolding ask is_profile_busy update_profile_state
idle place i quiet s =
    if quiet && ask place (λ c. is_profile_busy c i) s
    then update_profile_state place i false s
    else s

-- The works run, and queue themselves again.
unfoldable pub count_a2dp_packet_timeout : ℕ → Coex → Coex
unfolding ask change is_profile_busy is_profile_connected update_profile_state
count_a2dp_packet_timeout place s =
    let quiet = ask place (λ c. c.a2dp_packet_count == 0 && is_profile_busy c profile_a2dp) s in
    let s' = if quiet then update_profile_state place profile_a2dp false s else s in
    let sink = quiet && ask place (λ c. is_profile_connected c profile_sink) s' in
    let s'' = if sink then update_profile_state place profile_sink false s' else s' in
    change place (λ c. record c { a2dp_packet_count = 0; a2dp_count_work = true }) s''

unfoldable pub count_pan_packet_timeout : ℕ → Coex → Coex
unfolding ask change is_profile_busy update_profile_state
count_pan_packet_timeout place s =
    let many = ask place (λ c. leb pan_packet_limit c.pan_packet_count) s in
    let busy = ask place (λ c. is_profile_busy c profile_pan) s in
    let s' =
      if many
      then (if busy then s else update_profile_state place profile_pan true s)
      else if busy
      then update_profile_state place profile_pan false s
      else s in
    change place (λ c. record c { pan_packet_count = 0; pan_count_work = true }) s'

unfoldable pub count_hogp_packet_timeout : ℕ → Coex → Coex
unfolding ask change idle
count_hogp_packet_timeout place s =
    let s1 = idle place profile_hogp (ask place (λ c. c.hogp_packet_count == 0) s) s in
    let s2 = change place (λ c. record c { hogp_packet_count = 0 }) s1 in
    let s3 = idle place profile_voice (ask place (λ c. c.voice_packet_count == 0) s2) s2 in
    change place (λ c. record c { voice_packet_count = 0; hogp_count_work = true }) s3
