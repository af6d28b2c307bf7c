-- ===== src/H5/Skb/Laws.antt =====
-- What the buffer operations do to the bytes that a buffer holds.
use br_external.Prelude.{
  ℕ, ◌+◌, ◌≤◌, ◌<◌, ◌^◌, ◌≡◌, refl, arith, List, [], ◌++◌, length, take, drop, get_or,
  length-append, length-take, length-drop_add, length-replicate, drop-take_append, take_prefix,
  get_or-take, get_or-drop, take-take, ok,
}
use br_external.H5.Skb.{Skb, append, read, fresh, contents, skb_trim}

-- A buffer whose bytes lie within its block.
pub record IsBlock (s : Skb) : Type 0 where
  pub block : length s.mem ≡ s.max_len
  pub within : s.off + s.data_len ≤ s.max_len
  pub small : s.max_len < 2 ^ 31

-- `t` holds `bytes` behind what `s` holds, in the same block.
pub record Appended (s : Skb) (bytes : List ℕ) (t : Skb) : Type 0 where
  pub valid : IsBlock t
  pub max_same : t.max_len ≡ s.max_len
  pub off_same : t.off ≡ s.off
  pub longer : t.data_len ≡ s.data_len + length bytes
  pub holds : contents t ≡ contents s ++ bytes

-- The buffer that `append` leaves.
abbrev pub appended : Skb → List ℕ → Skb
appended s bytes = record s {
  data_len = s.data_len + length bytes;
  mem =
      take (s.off + s.data_len) s.mem ++ (bytes ++ drop (s.off + s.data_len + length bytes) s.mem);
}

module _ (s : Skb) (bytes : List ℕ) (v : IsBlock s)
    (room : s.off + s.data_len + length bytes ≤ s.max_len) where
  pub append-ok : append s bytes ≡ ok (appended s bytes)
  unfolding append
  append-ok = ground arith

  length_kept : length (appended s bytes).mem ≡ s.max_len
  length_kept =
      let at = s.off + s.data_len in
      let rest = drop (at + length bytes) s.mem in
      omega (
        arith,
        v.block,
        v.within,
        length-append (take at s.mem) (bytes ++ rest),
        length-append bytes rest,
        length-take at s.mem (omega (arith, v.block, v.within)),
        length-drop_add (at + length bytes) s.mem (omega (arith, v.block, v.within)),
      )

  holds_both : contents (appended s bytes) ≡ contents s ++ bytes
  holds_both =
      let rest = drop (s.off + s.data_len + length bytes) s.mem in
      rw
        (drop-take_append s.off s.data_len (s.off + s.data_len) s.mem (bytes ++ rest) refl
          (omega (arith, v.block, v.within)))
        (take_prefix (s.data_len + length bytes) (contents s) bytes rest (
          omega (
            arith,
            length-take s.data_len (drop s.off s.mem) (
                omega (
                  arith,
                  v.block,
                  v.within,
                  length-drop_add s.off s.mem (omega (arith, v.block, v.within)),
                )),
          )))

  pub append-Appended : Appended s bytes (appended s bytes)
  append-Appended = record {
    valid = record { block = length_kept; within = omega arith; small = v.small };
    max_same = refl;
    off_same = refl;
    longer = refl;
    holds = holds_both;
  }

pub fresh-IsBlock : (n : ℕ) → n < 2 ^ 31 → IsBlock (fresh n)
unfolding fresh
fresh-IsBlock n h = record { block = length-replicate n 0; within = omega arith; small = h }

pub length-contents : (s : Skb) → IsBlock s → length (contents s) ≡ s.data_len
length-contents s v =
    length-take s.data_len (drop s.off s.mem)
      (omega (arith, length-drop_add s.off s.mem (omega arith)))

-- Within the bytes that a buffer holds, `data[i]` is one of them.
pub read_lem :
    (s : Skb) (i : ℕ) → IsBlock s → i < s.data_len → read s i ≡ ok (get_or (contents s) i 0)
unfolding read
read_lem s i v h = ground (
  arith,
  get_or-take s.data_len i (drop s.off s.mem) 0,
  get_or-drop s.off i (s.off + i) s.mem 0 refl,
)

-- Anywhere in the block, a read returns some byte.
pub read_in_block : (s : Skb) (i : ℕ) → s.off + i < s.max_len → (x : ℕ) × (read s i ≡ ok x)
unfolding read
read_in_block s i h = (get_or s.mem (s.off + i) 0, ground arith)

-- Cutting at the end keeps the first bytes.
pub contents-skb_trim :
    (s : Skb) (n : ℕ) → n < s.data_len → contents (skb_trim s n) ≡ take n (contents s)
unfolding skb_trim
contents-skb_trim s n h = ground (arith, take-take n s.data_len (drop s.off s.mem))

pub skb_trim-IsBlock : (s : Skb) (n : ℕ) → IsBlock s → IsBlock (skb_trim s n)
unfolding skb_trim
skb_trim-IsBlock s n v = ground arith

pub fresh_sizes : (n : ℕ) → ((fresh n).off ≡ 0) × ((fresh n).data_len ≡ 0) × ((fresh n).max_len ≡ n)
unfolding fresh
fresh_sizes n = (refl, refl, refl)

pub contents-fresh : (n : ℕ) → contents (fresh n) ≡ []
unfolding fresh
contents-fresh n = refl

pub skb_trim_same :
    (s : Skb) (n : ℕ) → ((skb_trim s n).max_len ≡ s.max_len) × ((skb_trim s n).off ≡ s.off)
unfolding skb_trim
skb_trim_same s n = ground arith
