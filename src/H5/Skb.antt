-- ===== src/H5/Skb.antt =====
-- `struct sk_buff` and its operations in rtk_hciattach/hciattach_rtk.c.
pub mod Laws
use br_external.Prelude.{
  ℕ, ◌+◌, ◌-◌, ◌%◌, ◌^◌, Bool, true, false, if◌then◌else◌, ltb, List, [], ◌∷◌, ◌++◌, length, get_or,
  take, drop, replicate, Outcome, ok, exited, fault, ◌>>=◌,
}

-- `mem` is the block of `max_len` bytes behind the struct; `off` says where in it `data` points.
pub record Skb : Type 0 where
  pub max_len : ℕ
  pub data_len : ℕ
  pub off : ℕ
  pub mem : List ℕ

-- A pointer to a buffer.
pub data SkbPtr : Type 0 where
  null freed : SkbPtr
  live : Skb → SkbPtr

abbrev pub u32 : ℕ → ℕ
u32 n = n % 2 ^ 32

abbrev pub deref : SkbPtr → Outcome Skb
deref null = fault
deref freed = fault
deref (live s) = ok s

-- The block that a successful `malloc` and the `memset` leave.
unfoldable pub fresh : ℕ → Skb
fresh len = record { max_len = len; data_len = 0; off = 0; mem = replicate len 0 }

-- `malloc` answers as the environment decides: the first of the list says whether the next call
-- succeeds, and every call past the list's end does.
abbrev pub malloc : List Bool → Bool × List Bool
malloc [] = (true, [])
malloc (b ∷ bs) = (b, bs)

unfoldable pub skb_alloc : ℕ → List Bool → SkbPtr × List Bool
skb_alloc len heap =
    let (given, heap') = malloc heap in (if given then live (fresh len) else null, heap')

-- `free(NULL)` does nothing; a second `free` is undefined. What it returns is the dangling pointer.
unfoldable pub skb_free : SkbPtr → Outcome SkbPtr
skb_free null = ok null
skb_free freed = fault
skb_free (live s) = ok freed

-- The result has the place of the new bytes in the block.
unfoldable pub skb_put : Skb → ℕ → Outcome (ℕ × Skb)
skb_put s len =
    if ltb s.max_len (u32 (s.data_len + len))
    then exited
    else ok (s.off + s.data_len, record s { data_len = u32 (s.data_len + len) })

-- `memcpy` into the block: outside it is undefined.
unfoldable pub memcpy : Skb → ℕ → List ℕ → Outcome Skb
memcpy s at bytes =
    if ltb s.max_len (at + length bytes)
    then fault
    else ok (record s { mem = take at s.mem ++ (bytes ++ drop (at + length bytes) s.mem) })

-- `memcpy(skb_put(skb, n), bytes, n)`
unfoldable pub append : Skb → List ℕ → Outcome Skb
unfolding skb_put memcpy
append s bytes = do (at, s') ← skb_put s (length bytes); memcpy s' at bytes

-- Longer than the buffer: an error message, and nothing changes.
unfoldable pub skb_trim : Skb → ℕ → Skb
skb_trim s len = if ltb len s.data_len then record s { data_len = len } else s

unfoldable pub skb_pull : Skb → ℕ → Outcome Skb
skb_pull s len =
    if ltb s.data_len len
    then exited
    else ok (record s { data_len = s.data_len - len; off = s.off + len })

-- `skb->data[i]`: within the block, also past `data_len`.
unfoldable pub read : Skb → ℕ → Outcome ℕ
read s i = if ltb (s.off + i) s.max_len then ok (get_or s.mem (s.off + i) 0) else fault

-- The bytes that the buffer holds.
abbrev pub contents : Skb → List ℕ
contents s = take s.data_len (drop s.off s.mem)
