-- ===== src/Firmware/Image.antt =====
-- The image that is downloaded: `rtb_get_patch_entry`, `rtb_get_fw_project_id` and
-- `rtb_get_final_patch` of rtk_hciattach/rtb_fwc.c.
pub mod Project
pub mod Whole
use br_external.Prelude.{
  ℕ, zero, suc, ◌+◌, ◌-◌, ◌*◌, ◌/◌, ◌%◌, ◌^◌, Bool, true, false, not, ◌&&◌, ◌||◌, if◌then◌else◌,
  ltb, leb, ◌==◌, Option, none, some, List, [], ◌∷◌, ◌++◌, length, get_or, take, drop, Outcome, ok,
  fault, looping, ◌>>=◌,
}
use br_external.H5.Skb.{malloc}
use br_external.Firmware.Chips.{project_id, rom_lmp_8723a, rom_lmp_8703b, hci_uart_3wire}
use br_external.Firmware.Patches.{
  byte_at, get_unaligned_le16, get_unaligned_le32, PatchNode, patch_snippets, patch_dummy_header,
  patch_security_header, patch_ota_flag, Collected, ChipInfo, Rest, behind, on_collected,
  insert_patch, dummy_loop,
}
use br_external.Firmware.Sections.{rtb_get_patch_header}

-- `struct rtb_patch_entry`
pub record PatchEntry : Type 0 where
  pub chip_id : ℕ
  pub patch_len : ℕ
  pub soffset : ℕ
  pub svn_ver : ℕ
  pub coex_ver : ℕ

-- `get_unaligned_le32(buf + at - back)`: in front of the buffer is undefined.
abbrev le32_before : List ℕ → ℕ → ℕ → Outcome ℕ
le32_before buf at back = if ltb at back then fault else get_unaligned_le32 buf (at - back)

-- The loop over the chip ids, of which `n` are left, from number `i`.
unfoldable pub entry_loop : ℕ → ℕ → ℕ → List ℕ → ℕ → Outcome (Option PatchEntry)
unfolding get_unaligned_le16 get_unaligned_le32
entry_loop zero i number buf eversion = ok none
entry_loop (suc n) i number buf eversion = do
  chip_id ← get_unaligned_le16 buf (14 + 2 * i)
  let rest = entry_loop n (suc i) number buf eversion
  if not (chip_id == eversion + 1) then rest else (do
    patch_len ← get_unaligned_le16 buf (14 + 2 * number + 2 * i)
    soffset ← get_unaligned_le32 buf (14 + 4 * number + 4 * i)
    svn_ver ← le32_before buf (soffset + patch_len) 8
    coex_ver ← le32_before buf (soffset + patch_len) 12
    ok (
        some (record {
          chip_id = eversion + 1;
          patch_len = patch_len;
          soffset = soffset;
          svn_ver = svn_ver;
          coex_ver = coex_ver;
        })))

abbrev entry_with : Bool → Outcome (Option PatchEntry) → Outcome (Option PatchEntry)
entry_with true found = found
entry_with false found = ok none

unfoldable pub rtb_get_patch_entry : List ℕ → ℕ → List Bool → Outcome (Option PatchEntry)
unfolding entry_loop
rtb_get_patch_entry buf eversion heap =
    entry_with (malloc heap).0
      (do number ← get_unaligned_le16 buf 12; entry_loop number 0 number buf eversion)

-- `p_buf` points at the first of `down`, the bytes of the file from there down to its start.
unfoldable pub project_loop : ℕ → List ℕ → Outcome ℕ
project_loop (suc fuel) (opcode ∷ len ∷ down) =
    let back = drop len down in
    let again = project_loop fuel back in
    if opcode == 0 && len == 1
    then byte_at down 0
    else if ltb 0 (length back)
    then (if get_or back 0 0 == 0xff then ok 0 else again)
    else fault
project_loop (suc fuel) down = fault
project_loop zero down = looping

unfoldable pub rtb_get_fw_project_id : List ℕ → Outcome ℕ
unfolding project_loop
rtb_get_fw_project_id down = project_loop (suc (length down)) down

abbrev rtk_epatch_signature : List ℕ
rtk_epatch_signature = 0x52 ∷ 0x65 ∷ 0x61 ∷ 0x6c ∷ 0x74 ∷ 0x65 ∷ 0x63 ∷ 0x68 ∷ []

abbrev rtk_epatch_signature_new : List ℕ
rtk_epatch_signature_new = 0x52 ∷ 0x54 ∷ 0x42 ∷ 0x54 ∷ 0x43 ∷ 0x6f ∷ 0x72 ∷ 0x65 ∷ []

abbrev extension_section_signature : List ℕ
extension_section_signature = 0x51 ∷ 0x04 ∷ 0xfd ∷ 0x77 ∷ []

abbrev same_bytes : List ℕ → List ℕ → Bool
same_bytes [] [] = true
same_bytes [] (y ∷ ys) = false
same_bytes (x ∷ xs) [] = false
same_bytes (x ∷ xs) (y ∷ ys) = x == y && same_bytes xs ys

-- The `n` bytes of a buffer from `at` on; outside it is undefined.
unfoldable pub slice : List ℕ → ℕ → ℕ → Outcome (List ℕ)
slice buf at n = if ltb (length buf) (at + n) then fault else ok (take n (drop at buf))

-- The bytes from the front backwards, in front of `acc`.
abbrev pub downwards : List ℕ → List ℕ → List ℕ
downwards [] acc = acc
downwards (x ∷ xs) acc = downwards xs (x ∷ acc)

-- `memcpy` into an allocated block.
unfoldable pub put : List ℕ → ℕ → List ℕ → Outcome (List ℕ)
put block at bytes =
    if ltb (length block) (at + length bytes)
    then fault
    else ok (take at block ++ (bytes ++ drop (at + length bytes) block))

-- The files and what is known of the chip: `fw_buf`, `config_buf`, `lmp_subver`, `proj_id` of
-- `patch_ent`, and `chip` with the key as `rtb_vendor_read` has set it.
pub record Files : Type 0 where
  pub fw_buf : List ℕ
  pub config_buf : List ℕ
  pub lmp_subver : ℕ
  pub proj_id : ℕ
  pub chip : ChipInfo

-- A single patch for the 8723A: firmware and configuration one behind the other.
unfoldable pub single_patch : Files → Bool → Outcome (Option (List ℕ))
unfolding slice
single_patch s given = do
  signature ← slice s.fw_buf 0 8
  if same_bytes signature rtk_epatch_signature then ok none else if not given then ok none else (do
    _ ← le32_before s.fw_buf (length s.fw_buf) 8
    _ ← le32_before s.fw_buf (length s.fw_buf) 12
    ok (some (s.fw_buf ++ s.config_buf)))

-- The payloads of the list, one behind the other from `at` on.
unfoldable pub put_nodes : List ℕ → List PatchNode → List ℕ → ℕ → Outcome (List ℕ)
unfolding slice put
put_nodes fw [] block at = ok block
put_nodes fw (n ∷ ns) block at = do
  bytes ← slice fw n.payload n.len
  block' ← put block at bytes
  put_nodes fw ns block' (at + n.len)

-- `block n` are the contents of `n` bytes fresh from `malloc`. The sum of the lengths, of `int` in C,
-- is taken without a bound.
unfoldable pub new_image : Files → Bool → List Bool → (ℕ → List ℕ) → Outcome (Option (List ℕ))
unfolding put_nodes rtb_get_patch_header
new_image s given heap block = do
  (len, nodes) ← rtb_get_patch_header s.fw_buf s.chip heap
  if len == 0 then ok none else if not given then ok none else (do
    filled ← put_nodes s.fw_buf nodes (block (len + length s.config_buf)) 0
    image ← put filled len s.config_buf
    ok (some image))

unfoldable pub image_of :
    Files → Bool → Option PatchEntry → (ℕ → List ℕ) → Outcome (Option (List ℕ))
unfolding slice put
image_of s given none block = ok none
image_of s false (some entry) block = ok none
image_of s true (some entry) block = do
  patch ← slice s.fw_buf entry.soffset entry.patch_len
  a ← put (block (entry.patch_len + length s.config_buf)) 0 patch
  version ← slice s.fw_buf 8 4
  b ← if ltb entry.patch_len 4 then fault else put a (entry.patch_len - 4) version
  image ← put b entry.patch_len s.config_buf
  ok (some image)

unfoldable pub old_image : Files → Bool → List Bool → (ℕ → List ℕ) → Outcome (Option (List ℕ))
unfolding image_of rtb_get_patch_entry
old_image s given heap block = do
  entry ← rtb_get_patch_entry s.fw_buf s.chip.eversion heap
  image_of s given entry block

-- An element of `project_id`: the table has no more than its entries.
abbrev project_at : ℕ → Outcome ℕ
project_at i = if ltb i (length project_id) then ok (get_or project_id i 0) else fault

-- `NULL` is `none`; `rlen` is the length of the result. `heap` answers for the small allocations,
-- and `given` for the one of the image.
unfoldable pub rtb_get_final_patch :
    ℕ → Files → Bool → List Bool → (ℕ → List ℕ) → Outcome (Option (List ℕ))
unfolding single_patch new_image old_image rtb_get_fw_project_id slice
rtb_get_final_patch proto s given heap block =
    if proto == hci_uart_3wire && s.lmp_subver == rom_lmp_8723a then single_patch s given else (do
      signature ← slice s.fw_buf 0 8
      extension ← if ltb (length s.fw_buf) 4 then fault else slice s.fw_buf (length s.fw_buf - 4) 4
      let is_new = same_bytes signature rtk_epatch_signature_new
      if not (same_bytes signature rtk_epatch_signature || is_new)
            || not (same_bytes extension extension_section_signature)
          then ok none
          else (do
            proj_id ← rtb_get_fw_project_id (downwards (take (length s.fw_buf - 4) s.fw_buf) [])
            project ← project_at proj_id
            let wanted = if s.lmp_subver == rom_lmp_8703b then s.proj_id else s.lmp_subver
            if not (wanted == project)
                then ok none
                else if is_new
                then new_image s given heap block
                else old_image s given heap block))
