-- ===== src/Coex/Notify.antt =====
-- What rtk_coex.c tells the controller: `rtk_vendor_cmd_to_fw` and `rtk_notify_profileinfo_to_fw`,
-- and the changes of a connection that are followed by such a notice.
pub mod Valid
pub mod Report
use br_external.Prelude.{
  ℕ, zero, suc, ◌+◌, ◌*◌, ◌/◌, ◌%◌, Bool, true, false, not, ◌&&◌, ◌||◌, if◌then◌else◌, ltb, ◌==◌,
  Option, none, some, List, [], ◌∷◌, ◌++◌, length, get_elem?, take, set, word, or_bits,
}
use br_external.Coex.State.{Conn, Kernel, Coex, no_bits, alloc}
use br_external.Coex.Counters.{mark, count_up, count_down, hid_active}

abbrev pub hci_vendor_set_profile_report_legacy_command : ℕ
hci_vendor_set_profile_report_legacy_command = 0xfc19

abbrev pub hci_vendor_set_profile_report_command : ℕ
hci_vendor_set_profile_report_command = 0xfc1B

abbrev pub hci_vendor_set_bitpool : ℕ
hci_vendor_set_bitpool = 0xfc51

-- `UINT16_TO_STREAM`
abbrev pub u16_bytes : ℕ → List ℕ
u16_bytes n = n % 256 ∷ n / 256 % 256 ∷ []

-- The length goes into one byte.
unfoldable pub rtk_vendor_cmd_to_fw : ℕ → ℕ → List ℕ → Coex → Coex
rtk_vendor_cmd_to_fw opcode len parameter s =
    let parameter_len = len % 256 in
    let (there, given) = alloc s.kernel.given in
    if not (s.kernel.hdev && s.kernel.hci_up)
    then s
    else let s' = record s { kernel = record s.kernel { given = given } } in
      if there
      then record s' {
        cmd_q =
            s.cmd_q ++ ((u16_bytes opcode ++ parameter_len ∷ take parameter_len parameter) ∷ []);
        outside = s.outside || ltb (length parameter) parameter_len;
      }
      else s'

-- Whether a connection has a profile, and how many have, in a counter of a byte.
unfoldable pub has_profile : Conn → Bool
has_profile c = not (word c.profile_bitmap == 0)

unfoldable pub handle_count : List Conn → ℕ
unfolding has_profile
handle_count [] = 0
handle_count (c ∷ cs) = let rest = handle_count cs in if has_profile c then suc rest else rest

-- What is written for a connection: three bytes, or six once the controller knows that command.
unfoldable pub entry : Bool → Conn → List ℕ
entry false c = u16_bytes c.handle ++ word c.profile_bitmap % 256 ∷ []
entry true c =
    u16_bytes c.handle ++ (u16_bytes (word c.profile_bitmap) ++ u16_bytes (word c.profile_status))

-- The loop over the connections, with the handles to come, in a byte; the three-byte form gathers
-- the states of the connections.
unfoldable pub entries : Bool → ℕ → List Conn → List Bool → List ℕ × List Bool
unfolding has_profile
entries cmd n [] status = ([], status)
entries cmd n (c ∷ cs) status =
    let here = if has_profile c then entry cmd c else [] in
    let n' = if has_profile c then (n + 255) % 256 else n in
    let status' = if has_profile c && not cmd then or_bits status c.profile_status else status in
    let rest = entries cmd n' cs status' in
    if n' == 0 then (here, status') else (here ++ rest.0, rest.1)

unfoldable pub buffer_size : Bool → ℕ → ℕ
buffer_size false n = 1 + n * 3 + 1
buffer_size true n = 1 + n * 6

unfoldable pub rtk_notify_profileinfo_to_fw : Coex → Coex
rtk_notify_profileinfo_to_fw s =
    let n = handle_count s.conn_hash % 256 in
    let size = buffer_size s.profileinfo_cmd n in
    let (there, given) = alloc s.kernel.given in
    let s' = record s { kernel = record s.kernel { given = given } } in
    if not there
    then s'
    else let (bytes, status) = entries s.profileinfo_cmd n s.conn_hash s.profile_status in
      let p_buf = n ∷ bytes ++ (if s.profileinfo_cmd then [] else word status % 256 ∷ []) in
      let s'' = record s' { outside = s.outside || ltb size (length p_buf) } in
      if s.profileinfo_cmd
      then rtk_vendor_cmd_to_fw hci_vendor_set_profile_report_command size p_buf s''
      else rtk_vendor_cmd_to_fw hci_vendor_set_profile_report_legacy_command size p_buf
          (record s'' { profile_status = no_bits })

-- A change of the connection at a place of the list, and the notice if it needs one. A place that
-- `find_connection_by_handle` gave is one of the list.
unfoldable pub on_conn : ℕ → (Conn → Conn × Bool) → Coex → Coex
unfolding rtk_notify_profileinfo_to_fw
on_conn place change s = elim (get_elem? s.conn_hash place) [
  | none ↦ s
  | some c ↦
      let (c', need_update) = change c in
      let s' = record s { conn_hash = set s.conn_hash place c' } in
      if need_update then rtk_notify_profileinfo_to_fw s' else s'
]

unfoldable pub update_profile_state : ℕ → ℕ → Bool → Coex → Coex
unfolding on_conn mark
update_profile_state place i is_busy s = on_conn place (mark i is_busy) s

unfoldable pub update_profile_connection : ℕ → ℕ → Bool → Coex → Coex
unfolding on_conn count_up count_down
update_profile_connection place i is_add s =
    on_conn place (if is_add then count_up i else count_down i) s

-- The place of the first connection of a handle.
unfoldable pub find_connection_by_handle : List Conn → ℕ → Option ℕ
find_connection_by_handle [] h = none
find_connection_by_handle (c ∷ cs) h =
    let rest = find_connection_by_handle cs h in
    if h % 4096 == c.handle then some 0 else elim rest [ none ↦ none | some p ↦ some (suc p) ]

unfoldable pub update_hid_active_state : ℕ → ℕ → Coex → Coex
unfolding find_connection_by_handle on_conn hid_active
update_hid_active_state h interval s = elim (find_connection_by_handle s.conn_hash h) [
  | none ↦ s
  | some place ↦ on_conn place (hid_active interval) s
]
