-- ===== src/Firmware/Patches.antt =====
-- The patches in a firmware file: `insert_queue_sort` and `insert_patch` of
-- rtk_hciattach/rtb_fwc.c.
pub mod Sorted
use br_external.Prelude.{
  ℕ, zero, suc, ◌+◌, ◌-◌, ◌*◌, ◌/◌, ◌%◌, ◌^◌, Bool, true, false, not, ◌&&◌, if◌then◌else◌, ltb, leb,
  ◌==◌, Option, none, some, List, [], ◌∷◌, ◌++◌, length, get_or, drop, Outcome, ok, fault, looping,
  ◌>>=◌,
}
use br_external.H5.Skb.{malloc}

-- A byte of a buffer; outside it is undefined.
unfoldable pub byte_at : List ℕ → ℕ → Outcome ℕ
byte_at buf i = if ltb i (length buf) then ok (get_or buf i 0) else fault

unfoldable pub get_unaligned_le16 : List ℕ → ℕ → Outcome ℕ
unfolding byte_at
get_unaligned_le16 buf p = do b0 ← byte_at buf p; b1 ← byte_at buf (p + 1); ok (b0 + b1 * 256)

unfoldable pub get_unaligned_le32 : List ℕ → ℕ → Outcome ℕ
unfolding byte_at
get_unaligned_le32 buf p = do
  b0 ← byte_at buf p
  b1 ← byte_at buf (p + 1)
  b2 ← byte_at buf (p + 2)
  b3 ← byte_at buf (p + 3)
  ok (b0 + b1 * 256 + b2 * 65536 + b3 * 16777216)

-- `struct patch_node`; `payload` is a place in the firmware file.
pub record PatchNode : Type 0 where
  pub pri : ℕ
  pub key_id : ℕ
  pub len : ℕ
  pub payload : ℕ

-- Before the first node whose priority is not lower.
unfoldable pub insert_queue_sort : List PatchNode → PatchNode → List PatchNode
insert_queue_sort [] node = node ∷ []
insert_queue_sort (n ∷ ns) node =
    let rest = insert_queue_sort ns node in if leb node.pri n.pri then node ∷ n ∷ ns else n ∷ rest

abbrev pub patch_snippets : ℕ
patch_snippets = 0x01

abbrev pub patch_dummy_header : ℕ
patch_dummy_header = 0x02

abbrev pub patch_security_header : ℕ
patch_security_header = 0x03

abbrev pub patch_ota_flag : ℕ
patch_ota_flag = 0x04

-- What the loops over a firmware file change: the list, the length, and the answers of `malloc`.
pub record Collected : Type 0 where
  pub nodes : List PatchNode
  pub patch_len : ℕ
  pub sec_flag : Bool
  pub heap : List Bool

-- The version and the key of the chip, in `rtb_cfg`.
pub record ChipInfo : Type 0 where
  pub eversion : ℕ
  pub key_id : ℕ

-- The node that is made for an entry.
abbrev node_of : ℕ → ℕ → ℕ → PatchNode
node_of pri len payload = record { pri = pri; key_id = pri; len = len; payload = payload }

-- An entry for this chip, once its node is allocated: its length is counted in any case.
unfoldable pub collect : ChipInfo → ℕ → PatchNode → Collected → Collected
unfolding insert_queue_sort
collect chip opcode node c =
    let counted : Collected = record c { patch_len = (c.patch_len + node.len) % 2 ^ 32 } in
    if not (opcode == patch_security_header)
    then record counted { nodes = insert_queue_sort c.nodes node }
    else if chip.key_id == node.key_id && ltb 0 chip.key_id
    then record counted { nodes = insert_queue_sort c.nodes node; sec_flag = true }
    else counted

-- What a loop comes to: its end, or the label `alloc_fail` with the list as it is there.
pub data Attempt : Type 0 where
  done : Collected → Attempt
  alloc_fail : List PatchNode → Attempt

-- On a failure the loops are left.
abbrev pub on_collected : Attempt → (Collected → Outcome Attempt) → Outcome Attempt
on_collected (alloc_fail nodes) go = ok (alloc_fail nodes)
on_collected (done c) go = go c

-- How the loop goes on from a place in the file.
abbrev pub Rest : Type 0
Rest = ℕ → Collected → Outcome Attempt

abbrev pub behind : ℕ → ℕ → ℕ
behind pos section_len = pos + (8 + section_len) % 2 ^ 32

-- An entry for this chip, by the answer of `malloc`: without a node the result is -1, and the list
-- stays as it is.
unfoldable pub insert_entry :
    Bool × List Bool → List ℕ → ChipInfo → ℕ → ℕ → Collected → Rest → Outcome Attempt
unfolding byte_at get_unaligned_le32 collect
insert_entry (false, heap') buf chip opcode pos c rest = ok (alloc_fail c.nodes)
insert_entry (true, heap') buf chip opcode pos c rest = do
  pri ← byte_at buf (pos + 1)
  section_len ← get_unaligned_le32 buf (pos + 4)
  rest (behind pos section_len)
      (collect chip opcode (node_of pri section_len (pos + 8)) (record c { heap = heap' }))

-- The loop over the entries of a section, from the place `pos`.
unfoldable pub insert_loop : ℕ → List ℕ → ChipInfo → ℕ → Rest
unfolding insert_entry
insert_loop zero buf chip opcode pos c = ok (done c)
insert_loop (suc n) buf chip opcode pos c = do
  eco ← byte_at buf pos
  let rest = insert_loop n buf chip opcode
  if eco == chip.eversion + 1
      then insert_entry (malloc c.heap) buf chip opcode pos c rest
      else (do section_len ← get_unaligned_le32 buf (pos + 4); rest (behind pos section_len) c)

unfoldable pub insert_patch : List ℕ → ChipInfo → ℕ → ℕ → Collected → Outcome Attempt
unfolding insert_loop get_unaligned_le16
insert_patch buf chip section_pos opcode c = do
  numbers ← get_unaligned_le16 buf (section_pos + 8)
  insert_loop numbers buf chip opcode (section_pos + 12) c

-- The loop under a security header that no key fitted: from this section on, all dummy headers. It
-- counts the same `i` up.
unfoldable pub dummy_loop : ℕ → List ℕ → ChipInfo → Rest
unfolding insert_patch
dummy_loop zero buf chip section_pos c = ok (done c)
dummy_loop (suc n) buf chip section_pos c = do
  opcode ← get_unaligned_le32 buf section_pos
  section_len ← get_unaligned_le32 buf (section_pos + 4)
  c' ←
      if opcode == patch_dummy_header
      then insert_patch buf chip section_pos patch_dummy_header c
      else ok (done c)
  on_collected c' (λ d. dummy_loop n buf chip (behind section_pos section_len) d)
