-- ===== src/Firmware/Config/Format.antt =====
-- What `rtb_read_config` writes, read again by `rtb_parse_config`.
use br_external.Prelude.{
  ℕ, zero, suc, ◌-◌, ◌*◌, ◌/◌, ◌%◌, ◌<◌, ◌≡◌, refl, ap, ap₂, ◌∙◌, arith, true, false, ltb, ◌==◌,
  List, [], ◌∷◌, ◌++◌, length, length-append, append-nil, append_assoc, take, drop,
  take-length_append, All, ok, fault, Bool-cases, inl, inr, sym, some, ◌≤◌, ◌+◌,
}
use br_external.Firmware.Config.{
  CfgItem, write_items, data_len_of, config_len_from, new_config, write_config, items, parse_items,
  rtb_parse_config,
}

-- An item whose fields fit into theirs.
abbrev pub IsStorable : CfgItem → Type 0
IsStorable n = (n.offset < 65536) × (length n.bytes < 256)

-- The length of what is written.
unfoldable pub size : List CfgItem → ℕ
size [] = 0
size (n ∷ ns) = 3 + length n.bytes + size ns

data_len_of-size : (ns : List CfgItem) → data_len_of ns ≡ size ns % 65536
unfolding data_len_of size
data_len_of-size [] = refl
data_len_of-size (n ∷ ns) = omega (arith, data_len_of-size ns)

length-write_items : (ns : List CfgItem) → length (write_items ns) ≡ size ns
unfolding write_items size
length-write_items [] = refl
length-write_items (n ∷ ns) =
    omega (arith, length-append n.bytes (write_items ns), length-write_items ns)

length-size : (ns : List CfgItem) → length ns ≤ size ns
unfolding size
length-size [] = omega arith
length-size (n ∷ ns) = omega (arith, length-size ns)

drop_bytes : (bytes rest : List ℕ) → drop (length bytes) (bytes ++ rest) ≡ rest
drop_bytes [] rest = refl
drop_bytes (x ∷ xs) rest = drop_bytes xs rest

drop_item :
    (k : ℕ) (a b c : ℕ) (bytes rest : List ℕ)
    → k ≡ length bytes + 3
    → drop k (a ∷ b ∷ c ∷ bytes ++ rest) ≡ rest
drop_item k a b c bytes rest e =
    let e' : k ≡ suc (suc (suc (length bytes))) = omega (arith, e) in
    ap (λ n. drop n (a ∷ b ∷ c ∷ bytes ++ rest)) e' ∙ drop_bytes bytes rest

no_item :
    (fuel i cfg_len : ℕ) (list : List CfgItem)
    → cfg_len ≤ i
    → parse_items (suc fuel) (write_items []) i cfg_len list [] ≡ ok (items (list ++ []) [])
unfolding parse_items write_items
no_item fuel i cfg_len list h =
    let done : ltb i cfg_len ≡ false = ground arith in rw (done, append-nil list)

one_item :
    (fuel : ℕ) (n : CfgItem) (ns : List CfgItem) (i cfg_len : ℕ) (list : List CfgItem)
    → i + (3 + length n.bytes) ≤ cfg_len
    → cfg_len < 65536
    → IsStorable n
    → parse_items (suc fuel) (write_items (n ∷ ns)) i cfg_len list []
      ≡ parse_items fuel (write_items ns) (i + (length n.bytes + 3)) cfg_len (list ++ (n ∷ [])) []
unfolding parse_items write_items
one_item fuel n ns i cfg_len list room small a =
    let rest = write_items ns in
    let more : ltb i cfg_len ≡ true = ground arith in
    let head : ltb (suc (suc (suc (length (n.bytes ++ rest))))) 3 ≡ false = ground arith in
    let whole : ltb (suc (suc (suc (length (n.bytes ++ rest))))) (length n.bytes + 3) ≡ false =
      ground (arith, length-append n.bytes rest) in
    let back =
      drop_item (length n.bytes + 3) (n.offset % 256) (n.offset / 256 % 256) (length n.bytes)
        n.bytes rest refl in
    let on : (i + (length n.bytes + 3)) % 65536 ≡ i + (length n.bytes + 3) = omega arith in
    let same_offset : n.offset % 256 + n.offset / 256 % 256 * 256 ≡ n.offset = omega arith in
    let same : ◌≡◌ {A = CfgItem}
        (record {
          offset = n.offset % 256 + n.offset / 256 % 256 * 256;
          bytes = take (length n.bytes) (n.bytes ++ rest);
        })
        n =
      ap₂ (λ o b. record { offset = o; bytes = b }) same_offset (take-length_append n.bytes rest) in
    rw (more, head, whole, back, on)
      (ap (λ m. parse_items fuel rest (i + (length n.bytes + 3)) cfg_len (list ++ (m ∷ [])) [])
        same)

parse_items_lem :
    (fuel : ℕ) (ns : List CfgItem) (i cfg_len : ℕ) (list : List CfgItem)
    → length ns < fuel
    → i + size ns ≡ cfg_len
    → cfg_len < 65536
    → All IsStorable ns
    → parse_items fuel (write_items ns) i cfg_len list [] ≡ ok (items (list ++ ns) [])
unfolding size
parse_items_lem zero ns i cfg_len list f e small a = absurd (omega arith)
parse_items_lem (suc fuel) [] i cfg_len list f e small a = no_item fuel i cfg_len list (omega arith)
parse_items_lem (suc fuel) (n ∷ ns) i cfg_len list f e small a =
    one_item fuel n ns i cfg_len list (omega arith) small a.0
    ∙ parse_items_lem fuel ns (i + (length n.bytes + 3)) cfg_len (list ++ (n ∷ [])) (omega arith)
        (omega arith) small a.1
    ∙ ap (λ l. ok (items l [])) (append_assoc list (n ∷ []) ns)

config_len_from-size :
    (n : ℕ) (ns : List CfgItem) → n < 65536 → config_len_from n ns ≡ (n + size ns) % 65536
unfolding config_len_from size
config_len_from-size n [] h = omega arith
config_len_from-size n (x ∷ xs) h =
    config_len_from-size ((n + (3 + length x.bytes)) % 65536) xs (omega arith) ∙ omega arith

length-new_config : (ns : List CfgItem) → length (new_config ns) ≡ size ns + 6
unfolding new_config
length-new_config ns = omega (arith, length-write_items ns)

written :
    (ns : List CfgItem)
    → size ns < 65530
    → write_config ns [] ≡ ok (some (new_config ns), size ns + 6, [])
unfolding write_config
written ns small =
    let len : config_len_from 6 ns ≡ size ns + 6 =
      config_len_from-size 6 ns (omega arith) ∙ omega arith in
    let room : ltb (size ns + 6) (length (new_config ns)) ≡ false =
      ground (arith, length-new_config ns) in
    let some_left : (size ns + 6 == 0) ≡ false = ground arith in rw (len, some_left, room) refl

parsed :
    (ns list : List CfgItem)
    → All IsStorable ns
    → size ns < 65536
    → rtb_parse_config (new_config ns) list [] ≡ ok (items (list ++ ns) [])
unfolding rtb_parse_config new_config
parsed ns list a small =
    let n = size ns in
    let d : data_len_of ns ≡ n = data_len_of-size ns ∙ omega arith in
    let len : n % 256 + n / 256 % 256 * 256 ≡ n = omega arith in
    let l = length-write_items ns in
    let buf = new_config ns in
    let whole : length buf ≡ n + 6 = length-new_config ns in
    let long : ltb (length buf) 6 ≡ false = ground (arith, whole) in
    let agrees : (n == length buf - 6) ≡ true = ground (arith, whole) in
    rw (d, len, long, agrees)
      (parse_items_lem (suc (length buf)) ns 0 n list (omega (arith, whole, length-size ns))
        (omega arith) small a)

-- Items whose offsets and lengths fit into their fields, of less than 65530 bytes in all, where
-- `realloc` does not fail: `rtb_read_config` returns a buffer that it fills just to its end, with
-- the buffer's length in `cfg_len`, and `rtb_parse_config` accepts it and adds just these items, in
-- their order, to its list, if `malloc` does not fail; nothing outside the buffer is written or read.
pub rtb_parse_config-write_config :
    (ns list : List CfgItem)
    → All IsStorable ns
    → size ns < 65530
    → (buf : List ℕ) × (write_config ns [] ≡ ok (some buf, length buf, []))
      × (rtb_parse_config buf list [] ≡ ok (items (list ++ ns) []))
rtb_parse_config-write_config ns list a small = (
  new_config ns,
  written ns small ∙ ap (λ n. ok (some (new_config ns), n, [])) (sym (length-new_config ns)),
  parsed ns list a (omega arith),
)

-- Items of 65530 bytes or more in all: the 16 bits of `config_len` are not enough, and where
-- `realloc` does not fail, `rtb_read_config` writes behind the end of the block that it asked for.
pub write_config-overflow : (ns : List CfgItem) → 65530 ≤ size ns → write_config ns [] ≡ fault
unfolding write_config
write_config-overflow ns large =
    let len = config_len_from-size 6 ns (omega arith) in
    let short : ltb (config_len_from 6 ns) (length (new_config ns)) ≡ true =
      ground (arith, len, length-new_config ns) in
    elim (Bool-cases (config_len_from 6 ns == 0)) [
      | inl none_left ↦ rw none_left refl
      | inr some_left ↦ rw (some_left, short) refl
    ]
