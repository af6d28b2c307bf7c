-- ===== src/Firmware/Patches/Sorted.antt =====
-- The list of patches: its order, and what is in it.
use br_external.Prelude.{
  ℕ, zero, suc, ◌+◌, ◌%◌, ◌^◌, ◌≤◌, ◌≡◌, ◌≢◌, refl, arith, Bool, true, false, not, leb, ◌==◌,
  if_cases, List, [], ◌∷◌, All, Yields, Yields-bind,
}
use br_external.H5.Skb.{malloc}
use br_external.Firmware.Patches.{
  PatchNode, insert_queue_sort, patch_security_header, Collected, Attempt, done, alloc_fail,
  ChipInfo, collect, Rest, insert_entry, insert_loop, insert_patch, byte_at, get_unaligned_le16,
  get_unaligned_le32,
}

-- No later node has a lower priority.
unfoldable pub IsSorted : List PatchNode → Type 0
IsSorted [] = Unit
IsSorted (n ∷ ns) = All (λ m. n.pri ≤ m.pri) ns × IsSorted ns

unfoldable pub total : List PatchNode → ℕ
total [] = 0
total (n ∷ ns) = n.len + total ns

insert-All :
    (P : PatchNode → Type 0) (ns : List PatchNode) (node : PatchNode)
    → P node
    → All P ns
    → All P (insert_queue_sort ns node)
unfolding insert_queue_sort
insert-All P [] node p a = (p, tt)
insert-All P (n ∷ ns) node p a =
    if_cases (All P) (leb node.pri n.pri) _ _ (λ _. (p, a)) (λ _. (a.0, insert-All P ns node p a.1))

All-weaken :
    (P Q : PatchNode → Type 0) (ns : List PatchNode)
    → ((m : PatchNode) → P m → Q m)
    → All P ns
    → All Q ns
All-weaken P Q [] f a = tt
All-weaken P Q (n ∷ ns) f a = (f n a.0, All-weaken P Q ns f a.1)

-- A node that is put into a sorted list leaves it sorted, and adds just its own length to the
-- length of all payloads.
pub insert_queue_sort-IsSorted :
    (ns : List PatchNode) (node : PatchNode)
    → IsSorted ns
    → IsSorted (insert_queue_sort ns node)
      × (total (insert_queue_sort ns node) ≡ node.len + total ns)
unfolding insert_queue_sort IsSorted total
insert_queue_sort-IsSorted [] node s = ((tt, tt), refl)
insert_queue_sort-IsSorted (n ∷ ns) node s =
    let (sorted, sum) = insert_queue_sort-IsSorted ns node s.1 in
    if_cases (λ l. IsSorted l × (total l ≡ node.len + (n.len + total ns))) (leb node.pri n.pri) _ _
      (λ e. (
        (
          (
            ground arith,
            All-weaken (λ m. n.pri ≤ m.pri) (λ m. node.pri ≤ m.pri) ns (λ m le. ground arith) s.0,
          ),
          s,
        ),
        refl,
      ))
      (λ e.
        ((insert-All (λ m. n.pri ≤ m.pri) ns node (ground arith) s.0, sorted), omega (arith, sum)))

-- What the loops over the sections keep: the list is sorted, and the length is that of the payloads.
pub record Exact (c : Collected) : Type 0 where
  pub sorted : IsSorted c.nodes
  pub length : c.patch_len ≡ total c.nodes % 2 ^ 32

pub collect-Exact :
    (chip : ChipInfo) (opcode : ℕ) (node : PatchNode) (c : Collected)
    → opcode ≢ patch_security_header
    → Exact c
    → Exact (collect chip opcode node c)
unfolding collect
collect-Exact chip opcode node c plain x =
    let (sorted, sum) = insert_queue_sort-IsSorted c.nodes node x.sorted in
    if_cases Exact (not (opcode == patch_security_header)) _ _
      (λ _. record { sorted = sorted; length = omega (arith, sum, x.length) })
      (λ e. absurd (plain (ground arith)))

-- What a loop comes to: `P` where it ends, and `Q` of the list at a failure.
abbrev pub Comes : (Collected → Type 0) → (List PatchNode → Type 0) → Attempt → Type 0
Comes P Q (done c) = P c
Comes P Q (alloc_fail nodes) = Q nodes

-- The rest of a loop keeps it too.
abbrev pub Keeps : (Collected → Type 0) → (List PatchNode → Type 0) → Rest → Type 0
Keeps P Q rest = (pos : ℕ) (c : Collected) → P c → Yields (Comes P Q) (rest pos c)

-- What makes `P` an invariant of the loops over entries that are no keys, with `Q` at a failure.
pub record Invariant (P : Collected → Type 0) (Q : List PatchNode → Type 0) : Type 0 where
  pub collected :
      (chip : ChipInfo) (opcode : ℕ) (node : PatchNode) (c : Collected) (heap' : List Bool)
      → opcode ≢ patch_security_header
      → malloc c.heap ≡ (true, heap')
      → P c
      → P (collect chip opcode node (record c { heap = heap' }))
  pub refused :
      (c : Collected) (heap' : List Bool) → malloc c.heap ≡ (false, heap') → P c → Q c.nodes

pub Exact-Invariant : Invariant Exact IsSorted
Exact-Invariant = record {
  collected = λ chip opcode node c heap' plain e x.
      collect-Exact chip opcode node (record c { heap = heap' }) plain
        (record { sorted = x.sorted; length = x.length });
  refused = λ c heap' e x. x.sorted;
}

module _ (P : Collected → Type 0) (Q : List PatchNode → Type 0) (i : Invariant P Q) where
  insert_entry-Keeps :
      (answer : Bool × List Bool) (buf : List ℕ) (chip : ChipInfo) (opcode pos : ℕ) (c : Collected)
      (rest : Rest)
      → malloc c.heap ≡ answer
      → opcode ≢ patch_security_header
      → P c
      → Keeps P Q rest
      → Yields (Comes P Q) (insert_entry answer buf chip opcode pos c rest)
  unfolding insert_entry
  insert_entry-Keeps (false, heap') buf chip opcode pos c rest e plain x k = i.refused c heap' e x
  insert_entry-Keeps (true, heap') buf chip opcode pos c rest e plain x k =
      Yields-bind (Comes P Q) (byte_at buf (pos + 1)) _ λ pri.
        Yields-bind (Comes P Q) (get_unaligned_le32 buf (pos + 4)) _
          λ len. k _ _ (i.collected chip opcode _ c heap' plain e x)

  insert_loop-Keeps :
      (n : ℕ) (buf : List ℕ) (chip : ChipInfo) (opcode : ℕ)
      → opcode ≢ patch_security_header
      → Keeps P Q (insert_loop n buf chip opcode)
  unfolding insert_loop
  insert_loop-Keeps zero buf chip opcode plain pos c x = x
  insert_loop-Keeps (suc n) buf chip opcode plain pos c x =
      let rest = insert_loop-Keeps n buf chip opcode plain in
      Yields-bind (Comes P Q) (byte_at buf pos) _ λ eco.
        if_cases (Yields (Comes P Q)) (eco == chip.eversion + 1) _ _
          (λ _. insert_entry-Keeps (malloc c.heap) buf chip opcode pos c _ refl plain x rest)
          (λ _. Yields-bind (Comes P Q) (get_unaligned_le32 buf (pos + 4)) _ λ len. rest _ c x)

  pub insert_patch-Keeps :
      (buf : List ℕ) (chip : ChipInfo) (section_pos opcode : ℕ) (c : Collected)
      → opcode ≢ patch_security_header
      → P c
      → Yields (Comes P Q) (insert_patch buf chip section_pos opcode c)
  unfolding insert_patch
  insert_patch-Keeps buf chip section_pos opcode c plain x =
      Yields-bind (Comes P Q) (get_unaligned_le16 buf (section_pos + 8)) _
        λ numbers. insert_loop-Keeps numbers buf chip opcode plain (section_pos + 12) c x

-- A section of snippets or dummy headers, whatever its bytes are: where `insert_patch` succeeds, the
-- list stays in ascending order of priority, and `patch_len` stays the length of all payloads in the
-- list, in 32 bits; where it fails for want of memory, the list is in ascending order.
pub insert_patch-Exact :
    (buf : List ℕ) (chip : ChipInfo) (section_pos opcode : ℕ) (c : Collected)
    → opcode ≢ patch_security_header
    → Exact c
    → Yields (Comes Exact IsSorted) (insert_patch buf chip section_pos opcode c)
insert_patch-Exact = insert_patch-Keeps Exact IsSorted Exact-Invariant
