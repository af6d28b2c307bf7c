-- ===== src/Coex/Channels.antt =====
-- The list of profiles of rtk_coex.c, and how L2CAP signals change it.
pub mod Valid
use br_external.Prelude.{
  ℕ, zero, suc, ◌+◌, ◌%◌, Bool, true, false, not, ◌&&◌, ◌||◌, if◌then◌else◌, ltb, ◌==◌, Option,
  none, some, List, [], ◌∷◌, ◌++◌, get_elem?, set, bit, remove_at,
}
use br_external.Coex.State.{
  ProfInfo, Conn, Kernel, Coex, kmalloc, zero_prof, profile_hid, profile_a2dp, profile_pan,
  profile_sink, a2dp_signal, a2dp_media,
}
use br_external.Coex.Counters.{is_profile_connected}
use br_external.Coex.Notify.{find_connection_by_handle, update_profile_connection}

-- 0xFF stands for a PSM that is not looked at; every other one that is not known counts as PAN.
unfoldable pub psm_to_profile_index : ℕ → ℕ
psm_to_profile_index psm =
    if psm == 0x0017 || psm == 0x0001
    then 0xFF
    else if psm == 0x0011 || psm == 0x0013
    then profile_hid
    else if psm == 0x0019
    then profile_a2dp
    else profile_pan

-- The place of the first member that a test holds of.
unfoldable pub find_place {ℓ} : {A : Type ℓ} → (A → Bool) → List A → Option ℕ
find_place test [] = none
find_place test (x ∷ xs) =
    let rest = find_place test xs in
    if test x then some 0 else elim rest [ none ↦ none | some p ↦ some (suc p) ]

unfoldable pub find_by_psm : List ProfInfo → ℕ → ℕ → Option ℕ
unfolding find_place
find_by_psm profs h psm =
    find_place (λ (d : ProfInfo). h % 4096 == d.handle % 4096 && d.psm == psm) profs

unfoldable pub find_profile_by_handle_scid : List ProfInfo → ℕ → ℕ → Option ℕ
unfolding find_place
find_profile_by_handle_scid profs h scid =
    find_place (λ (d : ProfInfo). h % 4096 == d.handle && scid == d.scid) profs

unfoldable pub find_profile_by_handle_dcid : List ProfInfo → ℕ → ℕ → Option ℕ
unfolding find_place
find_profile_by_handle_dcid profs h dcid =
    find_place (λ (d : ProfInfo). h % 4096 == d.handle && dcid == d.dcid) profs

-- By the source's channel id, or by the destination's.
unfoldable pub find_profile : Bool → List ProfInfo → ℕ → ℕ → Option ℕ
unfolding find_profile_by_handle_scid find_profile_by_handle_dcid
find_profile true profs h cid = find_profile_by_handle_scid profs h cid
find_profile false profs h cid = find_profile_by_handle_dcid profs h cid

unfoldable pub find_profile_by_handle_dcid_scid : List ProfInfo → ℕ → ℕ → ℕ → Option ℕ
unfolding find_place
find_profile_by_handle_dcid_scid profs h dcid scid =
    find_place (λ (d : ProfInfo). h % 4096 == d.handle && dcid == d.dcid && scid == d.scid) profs

-- The first AVDTP channel of a handle is for signals, every further one for media. The flags of any
-- other profile are what the block held.
unfoldable pub new_flags : List ProfInfo → ℕ → ℕ → ℕ → ℕ
unfolding find_by_psm
new_flags profs h psm stale =
    if psm == 0x0019
    then elim (find_by_psm profs h psm) [ none ↦ a2dp_signal | some p ↦ a2dp_media ]
    else stale

unfoldable pub list_allocate_add : ℕ → ℕ → ℕ → ℕ → ℕ → Coex → Coex × Bool
unfolding new_flags
list_allocate_add h psm i dcid scid s =
    let (block, blocks) = kmalloc zero_prof s.kernel.prof_blocks in
    let s' = record s { kernel = record s.kernel { prof_blocks = blocks } } in
    elim block [
      | none ↦ (s', false)
      | some b ↦ (
        record s' {
          profile_list =
              s.profile_list
              ++ record {
                handle = h;
                psm = psm;
                dcid = dcid;
                scid = scid;
                profile_index = i;
                flags = new_flags s.profile_list h psm b.flags;
              }
                ∷ [];
        },
        true,
      )
    ]

-- The direction is true for what goes out.
unfoldable pub handle_l2cap_con_req : ℕ → ℕ → ℕ → Bool → Coex → Coex × Bool
unfolding psm_to_profile_index find_profile list_allocate_add
handle_l2cap_con_req h psm scid direction s =
    let i = psm_to_profile_index psm in
    if i == 0xFF then (s, false) else elim (find_profile direction s.profile_list h scid) [
      | none ↦
          if direction
          then list_allocate_add h psm i 0 scid s
          else list_allocate_add h psm i scid 0 s
      | some p ↦ (s, false)
    ]

-- The other end's channel id, which the response brings.
unfoldable pub joined : ℕ → Bool → ProfInfo → ProfInfo
joined dcid direction d = if direction then record d { scid = dcid } else record d { dcid = dcid }

-- `result` is a byte: of the 16 bits of the response the lower eight.
unfoldable pub handle_l2cap_con_rsp : ℕ → ℕ → ℕ → Bool → ℕ → Coex → Coex × Bool
unfolding find_profile joined find_connection_by_handle update_profile_connection
handle_l2cap_con_rsp h dcid scid direction result s =
    elim (find_profile (not direction) s.profile_list h scid) [
      | none ↦ (s, false)
      | some p ↦ elim (get_elem? s.profile_list p) [
        | none ↦ (s, false)
        | some d ↦
            let s' = record s { profile_list = set s.profile_list p (joined dcid direction d) } in
            if not (result % 256 == 0)
            then (s, true)
            else elim (find_connection_by_handle s.conn_hash h) [
              | none ↦ (s', true)
              | some place ↦ (update_profile_connection place d.profile_index true s', true)
            ]
      ]
    ]

abbrev pub delete_profile_from_hash : ℕ → Coex → Coex
delete_profile_from_hash p s = record s { profile_list = remove_at s.profile_list p }

-- The sink goes with the A2DP channel.
unfoldable pub sink_down : ℕ → ℕ → Coex → Coex
unfolding is_profile_connected update_profile_connection
sink_down place i s = elim (get_elem? s.conn_hash place) [
  | none ↦ s
  | some c ↦
      if i == profile_a2dp && is_profile_connected c profile_sink
      then update_profile_connection place profile_sink false s
      else s
]

-- A request that comes in names the ids the other way round.
unfoldable pub find_both : Bool → List ProfInfo → ℕ → ℕ → ℕ → Option ℕ
unfolding find_profile_by_handle_dcid_scid
find_both true profs h dcid scid = find_profile_by_handle_dcid_scid profs h dcid scid
find_both false profs h dcid scid = find_profile_by_handle_dcid_scid profs h scid dcid

unfoldable pub handle_l2cap_discon_req : ℕ → ℕ → ℕ → Bool → Coex → Coex × Bool
unfolding find_both find_connection_by_handle update_profile_connection sink_down
handle_l2cap_discon_req h dcid scid direction s =
    elim (find_both direction s.profile_list h dcid scid) [
      | none ↦ (s, false)
      | some p ↦ elim (get_elem? s.profile_list p) [
        | none ↦ (s, false)
        | some d ↦ elim (find_connection_by_handle s.conn_hash h) [
          | none ↦ (s, false)
          | some place ↦
              let i = d.profile_index in
              let s' = sink_down place i (update_profile_connection place i false s) in
              (delete_profile_from_hash p s', true)
        ]
      ]
    ]
