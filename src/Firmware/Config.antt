-- ===== src/Firmware/Config.antt =====
-- The configuration of rtk_hciattach/rtb_fwc.c: `is_mac`, `get_mac_offset`, `merge_configs`,
-- `rtb_parse_config`, and what `rtb_read_config` writes back.
pub mod Values
pub mod Merge
pub mod Format
pub mod Address
use br_external.Prelude.{
  ℕ, zero, suc, ◌+◌, ◌-◌, ◌*◌, ◌/◌, ◌%◌, bit_and, Bool, true, false, not, ◌&&◌, ◌||◌, if◌then◌else◌,
  ltb, ◌==◌, Option, none, some, List, [], ◌∷◌, ◌++◌, length, take, drop, get_or, Outcome, ok,
  fault, looping, ◌>>=◌,
}
use br_external.H5.Skb.{malloc}
use br_external.Firmware.Chips.{
  chip_8822bs, chip_8723ds, chip_8821cs, chip_8723cs_xx, chip_8723cs_cg, chip_8723cs_vf,
  chip_8822cs, chip_8761b, chip_8852as, chip_8723fs, chip_8852bs, chip_8852cs, chip_8851bs,
  chip_8761at, chip_8761atf, chip_8761btc, chip_8723bs,
}

abbrev pub one_of : ℕ → List ℕ → Bool
one_of x [] = false
one_of x (y ∷ ys) = x == y || one_of x ys

-- The groups of cases of the two `switch` statements.
abbrev pub at_0x44 : List ℕ
at_0x44 = chip_8822bs ∷ chip_8723ds ∷ chip_8821cs ∷ []

abbrev pub only_checked : List ℕ
only_checked = chip_8723cs_xx ∷ chip_8723cs_cg ∷ chip_8723cs_vf ∷ []

abbrev pub at_0x30 : List ℕ
at_0x30 =
    chip_8822cs ∷ chip_8761b ∷ chip_8852as ∷ chip_8723fs ∷ chip_8852bs ∷ chip_8852cs ∷ chip_8851bs
    ∷ []

abbrev pub at_0x3c : List ℕ
at_0x3c = chip_8761at ∷ chip_8761atf ∷ chip_8761btc ∷ chip_8723bs ∷ []

unfoldable pub is_mac : ℕ → ℕ → Bool
is_mac chip_type offset =
    if one_of chip_type (at_0x44 ++ only_checked)
    then offset == 0x0044
    else if one_of chip_type at_0x30
    then offset == 0x0030
    else if one_of chip_type at_0x3c
    then offset == 0x003c
    else false

unfoldable pub get_mac_offset : ℕ → ℕ
get_mac_offset chip_type =
    if one_of chip_type at_0x44
    then 0x0044
    else if one_of chip_type at_0x30
    then 0x0030
    else if one_of chip_type at_0x3c
    then 0x003c
    else 0x003c

-- `struct cfg_list_item`: `len` is the length of `bytes`.
pub record CfgItem : Type 0 where
  pub offset : ℕ
  pub bytes : List ℕ

-- What became of an extra item that went through the list: it met no item of its offset, it stands
-- in the list, or its bytes were copied into a longer item and it is freed.
pub data Fate : Type 0 where
  unmatched placed copied : Fate

-- An item of the list that the extra one replaces: a later item of the same offset, met by the same
-- run, either takes its place or swallows it.
abbrev replaced : CfgItem → Fate × List CfgItem → Fate × List CfgItem
replaced extra (unmatched, rest) = (placed, extra ∷ rest)
replaced extra (placed, rest) = (placed, rest)
replaced extra (copied, rest) = (copied, rest)

-- The inner loop of `merge_configs`.
unfoldable pub merge_item : CfgItem → List CfgItem → Fate × List CfgItem
merge_item extra [] = (unmatched, [])
merge_item extra (n ∷ ns) =
    let (fate, rest) = merge_item extra ns in
    if extra.offset == n.offset
    then (if ltb (length extra.bytes) (length n.bytes)
        then (copied, record n { bytes = extra.bytes ++ drop (length extra.bytes) n.bytes } ∷ ns)
        else replaced extra (fate, rest))
    else (fate, n ∷ rest)

-- What stays of the second list after an extra item.
abbrev kept_back : CfgItem → Fate → List CfgItem → List CfgItem
kept_back extra unmatched rest = extra ∷ rest
kept_back extra placed rest = rest
kept_back extra copied rest = rest

-- The outer loop: the first list, and what is left of the second.
unfoldable pub merge_all : List CfgItem → List CfgItem → List CfgItem × List CfgItem
unfolding merge_item
merge_all head [] = (head, [])
merge_all head (extra ∷ extras) =
    let (fate, head') = merge_item extra head in
    let (result, left) = merge_all head' extras in (result, kept_back extra fate left)

-- With an empty list on a side, the other one; else the two loops.
unfoldable pub merge_configs : List CfgItem → List CfgItem → List CfgItem
unfolding merge_all
merge_configs head [] = head
merge_configs [] (extra ∷ extras) = extra ∷ extras
merge_configs (n ∷ ns) (extra ∷ extras) =
    let (result, left) = merge_all (n ∷ ns) (extra ∷ extras) in result ++ left

abbrev pub cfg_magic : List ℕ
cfg_magic = 0x55 ∷ 0xab ∷ 0x23 ∷ 0x87 ∷ []

-- One item as `rtb_read_config` writes it.
unfoldable pub write_item : CfgItem → List ℕ
write_item n = n.offset % 256 ∷ n.offset / 256 % 256 ∷ length n.bytes ∷ n.bytes

unfoldable pub write_items : List CfgItem → List ℕ
unfolding write_item
write_items [] = []
write_items (n ∷ ns) = write_item n ++ write_items ns

-- `dlen`, in 16 bits.
unfoldable pub data_len_of : List CfgItem → ℕ
data_len_of [] = 0
data_len_of (n ∷ ns) = (3 + length n.bytes + data_len_of ns) % 65536

-- `config_len`, in 16 bits, counted on from `n`.
unfoldable pub config_len_from : ℕ → List CfgItem → ℕ
config_len_from n [] = n
config_len_from n (item ∷ rest) = config_len_from ((n + (3 + length item.bytes)) % 65536) rest

-- The new contents of the buffer.
unfoldable pub new_config : List CfgItem → List ℕ
unfolding write_items data_len_of
new_config items =
    let dlen = data_len_of items in cfg_magic ++ (dlen % 256 ∷ dlen / 256 % 256 ∷ write_items items)

-- The end of `rtb_read_config`, from the length on: the buffer that it returns, `*cfg_len`, and what
-- `malloc` does next. `realloc` makes a block of `config_len` bytes, where it does not fail; what is
-- written behind its end is a fault. With a length of 0 it frees the block, which then is freed
-- again or written to.
unfoldable pub write_config : List CfgItem → List Bool → Outcome (Option (List ℕ) × ℕ × List Bool)
unfolding config_len_from new_config
write_config items heap =
    let config_len = config_len_from 6 items in
    let (given, heap') = malloc heap in
    let buf = new_config items in
    if config_len == 0
    then fault
    else if not given
    then ok (none, 0, heap')
    else if ltb config_len (length buf)
    then fault
    else ok (some buf, config_len, heap')

-- `!memcmp(a, b, 4)`
abbrev same_bytes : List ℕ → List ℕ → Bool
same_bytes [] ys = true
same_bytes (x ∷ xs) [] = true
same_bytes (x ∷ xs) (y ∷ ys) = x == y && same_bytes xs ys

-- The result of `rtb_parse_config`: -1, or 0 with the items added to the list.
pub data Parsed : Type 0 where
  invalid : Parsed
  items : List CfgItem → List Bool → Parsed

-- `entry` points at `rest`, the bytes up to the end of the buffer; `i` has 16 bits.
unfoldable pub parse_items : ℕ → List ℕ → ℕ → ℕ → List CfgItem → List Bool → Outcome Parsed
parse_items zero rest i cfg_len list heap = looping
parse_items (suc fuel) rest i cfg_len list heap =
    let len = get_or rest 2 0 in
    let item : CfgItem = record {
      offset = get_or rest 0 0 + get_or rest 1 0 * 256;
      bytes = take len (drop 3 rest);
    } in
    let (given, heap') = malloc heap in
    let list' = if given then list ++ (item ∷ []) else list in
    let more =
      parse_items fuel (drop (len + 3) rest) ((i + (len + 3)) % 65536) cfg_len list' heap' in
    if not (ltb i cfg_len)
    then ok (items list heap)
    else if ltb (length rest) 3
    then fault
    else if given && ltb (length rest) (len + 3)
    then fault
    else more

unfoldable pub rtb_parse_config : List ℕ → List CfgItem → List Bool → Outcome Parsed
rtb_parse_config buf list heap =
    let cfg_len = get_or buf 4 0 + get_or buf 5 0 * 256 in
    if ltb (length buf) 6
    then ok invalid
    else if not (same_bytes (take 4 buf) cfg_magic)
    then ok invalid
    else if not (cfg_len == length buf - 6)
    then ok invalid
    else parse_items (suc (length buf)) (drop 6 buf) 0 cfg_len list heap
