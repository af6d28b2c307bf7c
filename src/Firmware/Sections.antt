-- ===== src/Firmware/Sections.antt =====
-- The sections of a firmware file: `rtb_get_patch_header` of rtk_hciattach/rtb_fwc.c.
pub mod Ordered
use br_external.Prelude.{
  ℕ, zero, suc, ◌+◌, Bool, false, not, if◌then◌else◌, leb, ◌==◌, Option, none, some, List, [],
  Outcome, ok, looping, ◌>>=◌,
}
use br_external.Firmware.Patches.{
  byte_at, get_unaligned_le32, PatchNode, patch_snippets, patch_dummy_header, patch_security_header,
  patch_ota_flag, Collected, Attempt, done, alloc_fail, ChipInfo, Rest, behind, on_collected,
  insert_patch, dummy_loop,
}

-- The case of a section that holds a flag for updates over the air: its values are only read. The
-- counter has 16 bits and never reaches a larger number.
unfoldable pub ota_section : List ℕ → ChipInfo → ℕ → Collected → Outcome Attempt
unfolding byte_at get_unaligned_le32
ota_section buf chip section_pos c = do
  number ← get_unaligned_le32 buf (section_pos + 4)
  eco ← byte_at buf (section_pos + 5)
  if not (eco == chip.eversion + 1)
      then ok (done c)
      else if number == 0
      then ok (done c)
      else if leb 65536 number
      then looping
      else (do _ ← get_unaligned_le32 buf (section_pos + 8); ok (done c))

-- After a security header: its key fitted, or the dummy headers behind it are taken instead and the
-- loop over the sections is over. Both loops count the same `i`, of 16 bits: with 65535 sections it
-- wraps around, and the loop over the sections starts again, which is not followed here (`looping`);
-- with more it never reaches their number.
unfoldable pub after_security : ℕ → List ℕ → ChipInfo → ℕ → Rest → Collected → Outcome Attempt
unfolding dummy_loop
after_security total buf chip section_pos rest c = if c.sec_flag then rest section_pos c else (do
  c' ← dummy_loop total buf chip section_pos c
  on_collected c' (λ d. if leb 65535 total then looping else ok (done d)))

-- The `switch` on the opcode of a section.
unfoldable pub section : ℕ → List ℕ → ChipInfo → ℕ → ℕ → Rest → Collected → Outcome Attempt
unfolding insert_patch ota_section after_security
section total buf chip section_pos opcode rest c =
    if opcode == patch_snippets
    then (do
      c' ← insert_patch buf chip section_pos patch_snippets c
      on_collected c' (λ d. rest section_pos d))
    else if opcode == patch_security_header
    then (if chip.key_id == 0 then rest section_pos c else (do
      c' ← insert_patch buf chip section_pos patch_security_header (record c { sec_flag = false })
      on_collected c' (λ d. after_security total buf chip section_pos rest d)))
    else if opcode == patch_dummy_header
    then (if not (chip.key_id == 0) then rest section_pos c else (do
      c' ← insert_patch buf chip section_pos patch_dummy_header c
      on_collected c' (λ d. rest section_pos d)))
    else if opcode == patch_ota_flag
    then (do c' ← ota_section buf chip section_pos c; on_collected c' (λ d. rest section_pos d))
    else rest section_pos c

-- The loop over the sections, of which there are `total`. A counter of 16 bits never reaches a larger
-- number: what is not over after `total` rounds then is taken for endless.
unfoldable pub section_loop : ℕ → ℕ → List ℕ → ChipInfo → Rest
unfolding section
section_loop zero total buf chip section_pos c = if leb 65536 total then looping else ok (done c)
section_loop (suc n) total buf chip section_pos c = do
  opcode ← get_unaligned_le32 buf section_pos
  section_len ← get_unaligned_le32 buf (section_pos + 4)
  let rest = section_loop n total buf chip
  section total buf chip section_pos opcode (λ at d. rest (behind at section_len) d) c

-- `*len` and the list: at `alloc_fail` the length is 0, and the list keeps its nodes.
abbrev length_of : Attempt → ℕ × List PatchNode
length_of (alloc_fail nodes) = (0, nodes)
length_of (done c) = (c.patch_len, c.nodes)

unfoldable pub rtb_get_patch_header : List ℕ → ChipInfo → List Bool → Outcome (ℕ × List PatchNode)
unfolding section_loop
rtb_get_patch_header buf chip heap = do
  total ← get_unaligned_le32 buf 16
  c ←
      section_loop total total buf chip 20
        (record { nodes = []; patch_len = 0; sec_flag = false; heap = heap })
  ok (length_of c)
