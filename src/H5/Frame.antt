-- ===== src/H5/Frame.antt =====
-- What rtk_hciattach/hciattach_rtk.c does with the packets that reach it: `h5_init_hci_cc`,
-- `h5_post_hci_cc`, `hci_recv_frame`, `h5_handle_internal_rx` and `h5_complete_rx_pkt`.
pub mod Link
pub mod Safety
pub mod Due
pub mod Settled
use br_external.Prelude.{
  ℕ, ◌+◌, ◌-◌, ◌*◌, ◌/◌, ◌%◌, bit_and, bit_or, Bool, true, false, not, ◌&&◌, ◌||◌, if◌then◌else◌,
  ◌==◌, ltb, List, [], ◌∷◌, Outcome, ok, ◌>>=◌,
}
use br_external.H5.Prepare.{
  u8, is_set, rtb_send_ack, hci_command_pkt, hci_acldata_pkt, hci_scodata_pkt, hci_event_pkt,
  h5_link_ctl_pkt,
}
use br_external.H5.Skb.{Skb, SkbPtr, null, live, deref, read, skb_pull, skb_free}
use br_external.H5.State.{
  H5, Rtb, Chip, CmdState, LinkState, sync, config, init, patch, hci_reset, active, RxState,
  w4_pkt_delimiter, write,
}

abbrev pub hci_cmd_read_bd_addr : ℕ
hci_cmd_read_bd_addr = 0x1009

abbrev pub hci_vendor_change_baud : ℕ
hci_vendor_change_baud = 0xfc17

abbrev pub hci_vendor_read_rom_ver : ℕ
hci_vendor_read_rom_ver = 0xfc6d

abbrev pub hci_cmd_read_local_ver : ℕ
hci_cmd_read_local_ver = 0x1001

abbrev pub hci_vendor_read_cmd : ℕ
hci_vendor_read_cmd = 0xfc61

abbrev pub hci_cmd_reset : ℕ
hci_cmd_reset = 0x0c03

-- `data[i] | (data[i + 1] << 8)`
abbrev pub le16_at : Skb → ℕ → Outcome ℕ
le16_at skb i = do lo ← read skb i; hi ← read skb (i + 1); ok (bit_or lo (hi * 256))

-- The `if` chain under HCI_VENDOR_READ_CMD, on `subopcode`.
unfoldable pub read_cmd_answer : ℕ → Chip → Skb → Outcome Chip
read_cmd_answer subopcode chip skb =
    if subopcode == 1
    then (do
      a ← read skb 1
      b ← read skb 2
      ok (record chip { chip_type = bit_and a 0x0f; chip_ver = bit_and b 0x0f }))
    else if subopcode == 2
    then (do v ← le16_at skb 1; ok (record chip { lmp_subver = v }))
    else if subopcode == 3
    then (do v ← le16_at skb 1; ok (record chip { hci_rev = v }))
    else if subopcode == 4
    then (do v ← read skb 1; ok (record chip { key_id = v }))
    else ok chip

-- One command more, in 16 bits.
abbrev count_cmd : Chip → Chip
count_cmd chip = record chip { num_of_cmd_sent = (chip.num_of_cmd_sent + 1) % 65536 }

-- The `switch` of `h5_init_hci_cc`; its `default` returns before the command is counted.
unfoldable pub init_answer : ℕ → ℕ → Chip → Skb → Outcome Chip
unfolding read_cmd_answer
init_answer opcode subopcode chip skb =
    if opcode == hci_vendor_change_baud
    then ok (count_cmd chip)
    else if opcode == hci_cmd_read_bd_addr
    then (do _ ← read skb 5; ok (count_cmd chip))
    else if opcode == hci_cmd_read_local_ver
    then (do
      ver ← read skb 1
      rev ← le16_at skb 2
      sub ← le16_at skb 7
      ok (count_cmd (record chip { hci_ver = ver; hci_rev = rev; lmp_subver = sub })))
    else if opcode == hci_vendor_read_rom_ver
    then (do ver ← read skb 1; ok (count_cmd (record chip { eversion = ver })))
    else if opcode == hci_vendor_read_cmd
    then (do chip' ← read_cmd_answer subopcode chip skb; ok (count_cmd chip'))
    else ok chip

-- The common start of `h5_init_hci_cc` and `h5_post_hci_cc`: the status, the opcode and the buffer
-- at the status byte.
unfoldable pub command_complete : Skb → Outcome (ℕ × ℕ × Skb)
command_complete skb = do
  a ← skb_pull skb 2
  opcode ← le16_at a 1
  b ← skb_pull a 3
  status ← read b 0
  ok (status, opcode, b)

unfoldable pub h5_init_hci_cc : Rtb → Skb → Outcome (Rtb × Skb)
unfolding init_answer command_complete
h5_init_hci_cc s skb = do
  (status, opcode, b) ← command_complete skb
  if is_set status then ok (s, b) else if not (s.cmd_state.opcode == opcode) then ok (s, b) else (do
    chip' ← init_answer opcode s.cmd_state.subopcode s.chip b
    ok (record s { cmd_state = record (s.cmd_state) { state = 1 }; chip = chip' }, b))

unfoldable pub h5_post_hci_cc : Rtb → Skb → Outcome (Rtb × Skb)
unfolding command_complete
h5_post_hci_cc s skb = do
  (status, opcode, b) ← command_complete skb
  if is_set status
      then ok (s, b)
      else if not (s.cmd_state.opcode == opcode)
      then ok (s, b)
      else ok (
        record s {
          cmd_state = record (s.cmd_state) { state = 1 };
          link_estab_state = if opcode == hci_cmd_reset then active else s.link_estab_state;
        },
        b,
      )

-- The answer to a patch fragment: its index, whose top bit ends the download.
unfoldable pub recv_patch_answer : Rtb → Skb → Outcome (Rtb × Skb)
recv_patch_answer s skb = do
  code ← read skb 0
  if not (code == 0x0e) then ok (s, skb) else (do
    index ← read skb 6
    if is_set (bit_and index 0x80)
        then ok (record s { rx_index = index - 0x80; link_estab_state = hci_reset }, skb)
        else ok (record s { rx_index = index }, skb))

-- By the link state. The buffer is handed back as `skb_pull` leaves it.
unfoldable pub recv_frame_in : LinkState → Rtb → Skb → Outcome (Rtb × Skb)
unfolding h5_init_hci_cc h5_post_hci_cc recv_patch_answer
recv_frame_in init s skb = do
  code ← read skb 0
  if code == 0x0e then h5_init_hci_cc s skb else ok (s, skb)
recv_frame_in patch s skb = recv_patch_answer s skb
recv_frame_in hci_reset s skb = do
  code ← read skb 0
  if code == 0x0e then h5_post_hci_cc s skb else ok (s, skb)
recv_frame_in _ s skb = ok (s, skb)

unfoldable pub hci_recv_frame : Rtb → Skb → Outcome (Rtb × Skb)
unfolding recv_frame_in
hci_recv_frame s skb = recv_frame_in s.link_estab_state s skb

abbrev pub sync_resp_pkt : List ℕ
sync_resp_pkt = 0xc0 ∷ 0x00 ∷ 0x2f ∷ 0x00 ∷ 0xd0 ∷ 0x02 ∷ 0x7d ∷ 0xc0 ∷ []

abbrev pub conf_resp_pkt : List ℕ
conf_resp_pkt = 0xc0 ∷ 0x00 ∷ 0x2f ∷ 0x00 ∷ 0xd0 ∷ 0x04 ∷ 0x7b ∷ 0xc0 ∷ []

-- `!memcmp(skb->data, m, 2)` for the message with these two bytes
abbrev is_msg : ℕ → ℕ → ℕ → ℕ → Bool
is_msg a b x y = a == x && b == y

unfoldable pub internal_sync : Rtb → ℕ → ℕ → Rtb
internal_sync s a b =
    if is_msg a b 0x01 0x7e
    then write s sync_resp_pkt
    else if is_msg a b 0x02 0x7d
    then record s { link_estab_state = config }
    else s

unfoldable pub internal_config : Rtb → Skb → ℕ → ℕ → Outcome Rtb
internal_config s skb a b =
    if is_msg a b 0x01 0x7e
    then ok (write s sync_resp_pkt)
    else if is_msg a b 0x03 0xfc
    then ok (write s conf_resp_pkt)
    else if is_msg a b 0x04 0x7b
    then (if ltb 2 skb.data_len
        then (do
          field ← read skb 2
          ok (record s {
            link_estab_state = init;
            h5 = record (s.h5) { use_crc = bit_and (field / 16) 0x01 };
          }))
        else ok (record s { link_estab_state = init }))
    else rtb_send_ack s

unfoldable pub internal_in : LinkState → Rtb → Skb → Outcome Rtb
unfolding internal_sync internal_config
internal_in sync s skb = do a ← read skb 0; b ← read skb 1; ok (internal_sync s a b)
internal_in config s skb = do a ← read skb 0; b ← read skb 1; internal_config s skb a b
internal_in _ s skb = ok s

unfoldable pub h5_handle_internal_rx : Rtb → Skb → Outcome Rtb
unfolding internal_in
h5_handle_internal_rx s skb = internal_in s.link_estab_state s skb

-- The macros on a packet header.
abbrev pub h5_hdr_seq : ℕ → ℕ
h5_hdr_seq hdr0 = bit_and hdr0 0x07

abbrev pub h5_hdr_ack : ℕ → ℕ
h5_hdr_ack hdr0 = bit_and (hdr0 / 8) 0x07

abbrev pub h5_hdr_reliable : ℕ → ℕ
h5_hdr_reliable hdr0 = bit_and (hdr0 / 128) 0x01

abbrev pub h5_hdr_pkt_type : ℕ → ℕ
h5_hdr_pkt_type hdr1 = bit_and hdr1 0x0f

-- The acknowledgement numbers that a header brings.
unfoldable pub take_header : H5 → ℕ → H5
take_header h5 hdr0 =
    let r =
      if is_set (h5_hdr_reliable hdr0)
      then record h5 { rxseq_txack = bit_and (u8 (h5_hdr_seq hdr0 + 1)) 0x07; is_txack_req = 1 }
      else h5 in
    record r { rxack = h5_hdr_ack hdr0 }

-- The packet types that are passed up.
abbrev pub is_passed_up : ℕ → Bool
is_passed_up t =
    t == hci_acldata_pkt || t == hci_event_pkt || t == hci_command_pkt || t == hci_scodata_pkt

unfoldable pub pass_up : Rtb → Skb → Outcome (Rtb × Skb)
pass_up s skb = do skb' ← skb_pull skb 4; hci_recv_frame s skb'

-- A link-control packet is handled here.
unfoldable pub keep_here : Rtb → Skb → Outcome (Rtb × Skb)
keep_here s skb = do skb' ← skb_pull skb 4; s' ← h5_handle_internal_rx s skb'; ok (s', skb')

-- The `switch` on the packet type: pass up, handle here, or drop.
unfoldable pub route : Rtb → Skb → ℕ → Outcome (Rtb × Skb)
route s skb pkt_type =
    if is_passed_up pkt_type
    then pass_up s skb
    else if pkt_type == h5_link_ctl_pkt
    then keep_here s skb
    else ok (s, skb)

-- A pending acknowledgement goes out at once.
unfoldable pub answer : Rtb → Outcome Rtb
unfolding rtb_send_ack
answer s =
    if is_set s.h5.is_txack_req
    then (do s' ← rtb_send_ack s; ok (record s' { h5 = record (s'.h5) { is_txack_req = 0 } }))
    else ok s

-- The buffer is freed, and the receiver waits for a delimiter.
unfoldable pub release : Rtb → Skb → Outcome Rtb
unfolding skb_free
release s skb = do
  _ ← skb_free (live skb)
  ok (record s { h5 = record (s.h5) { rx_state = w4_pkt_delimiter; rx_skb = null } })

unfoldable pub h5_complete_rx_pkt : Rtb → Outcome Rtb
h5_complete_rx_pkt s = do
  skb ← deref s.h5.rx_skb
  hdr0 ← read skb 0
  hdr1 ← read skb 1
  (s1, skb') ← route (record s { h5 = take_header s.h5 hdr0 }) skb (h5_hdr_pkt_type hdr1)
  s2 ← answer s1
  release s2 skb'
