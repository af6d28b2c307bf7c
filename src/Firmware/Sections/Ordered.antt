-- ===== src/Firmware/Sections/Ordered.antt =====
-- The list and the length that `rtb_get_patch_header` collects.
use br_external.Prelude.{
  ℕ, zero, suc, ◌+◌, ◌%◌, ◌^◌, ◌≡◌, ◌≢◌, refl, arith, Bool, false, not, leb, ◌==◌, ==_iff,
  true-false, if_cases, List, [], ◌⊎◌, ◌&&◌, ltb, ap, sym, ◌∙◌, inl, inr, Yields, Yields-bind,
  Yields-then,
}
use br_external.H5.Skb.{malloc}
use br_external.Firmware.Patches.{
  PatchNode, byte_at, get_unaligned_le32, patch_snippets, patch_dummy_header, patch_security_header,
  patch_ota_flag, Collected, Attempt, done, alloc_fail, ChipInfo, Rest, behind, collect,
  on_collected, insert_patch,
}
use br_external.Firmware.Patches.Sorted.{
  IsSorted, total, Exact, Comes, Keeps, Invariant, collect-Exact, Exact-Invariant,
  insert_patch-Keeps,
}
use br_external.Firmware.Sections.{
  length_of, ota_section, section, section_loop, rtb_get_patch_header,
}

module _ (P : Collected → Type 0) (Q : List PatchNode → Type 0) (i : Invariant P Q) where
  -- Behind a section that was collected.
  go_on :
      (r : Attempt) (pos : ℕ) (rest : Rest)
      → Comes P Q r
      → Keeps P Q rest
      → Yields (Comes P Q) (on_collected r (λ d. rest pos d))
  go_on (alloc_fail nodes) pos rest x k = x
  go_on (done c) pos rest x k = k pos c x

  ota_section-Keeps :
      (buf : List ℕ) (chip : ChipInfo) (pos : ℕ) (c : Collected)
      → P c
      → Yields (Comes P Q) (ota_section buf chip pos c)
  unfolding ota_section
  ota_section-Keeps buf chip pos c x =
      let R = Comes P Q in
      Yields-bind R (get_unaligned_le32 buf (pos + 4)) _ λ number.
        Yields-bind R (byte_at buf (pos + 5)) _ λ eco.
          if_cases (Yields R) (not (eco == chip.eversion + 1)) _ _ (λ _. x)
            λ _.
              if_cases (Yields R) (number == 0) _ _ (λ _. x)
                λ _.
                  if_cases (Yields R) (leb 65536 number) _ _ (λ _. tt)
                    λ _. Yields-bind R (get_unaligned_le32 buf (pos + 8)) _ λ enable. x

  section-Keeps :
      (count : ℕ) (buf : List ℕ) (chip : ChipInfo) (pos opcode : ℕ) (rest : Rest) (c : Collected)
      → chip.key_id ≡ 0
      → Keeps P Q rest
      → P c
      → Yields (Comes P Q) (section count buf chip pos opcode rest c)
  unfolding section
  section-Keeps count buf chip pos opcode rest c no_key k x =
      let R = Comes P Q in
      let insert = λ (op : ℕ) (ne : op ≢ patch_security_header).
        Yields-then R R (insert_patch buf chip pos op c) _
          (insert_patch-Keeps P Q i buf chip pos op c ne x) λ r y. go_on r pos rest y k in
      if_cases (Yields R) (opcode == patch_snippets) _ _ (λ _. insert patch_snippets (omega arith))
        λ _.
          if_cases (Yields R) (opcode == patch_security_header) _ _
            (λ _.
              if_cases (Yields R) (chip.key_id == 0) _ _ (λ _. k pos c x)
                λ e. true-false (chip.key_id == 0) ((==_iff _ _).1 no_key) e)
            λ _.
              if_cases (Yields R) (opcode == patch_dummy_header) _ _
                (λ _.
                  if_cases (Yields R) (not (chip.key_id == 0)) _ _ (λ _. k pos c x)
                    λ _. insert patch_dummy_header (omega arith))
                λ _.
                  if_cases (Yields R) (opcode == patch_ota_flag) _ _
                    (λ _.
                      Yields-then R R (ota_section buf chip pos c) _
                        (ota_section-Keeps buf chip pos c x) λ r y. go_on r pos rest y k)
                    (λ _. k pos c x)

  section_loop-Keeps :
      (n count : ℕ) (buf : List ℕ) (chip : ChipInfo)
      → chip.key_id ≡ 0
      → Keeps P Q (section_loop n count buf chip)
  unfolding section_loop
  section_loop-Keeps zero count buf chip no_key pos c x =
      if_cases (Yields (Comes P Q)) (leb 65536 count) _ _ (λ _. tt) (λ _. x)
  section_loop-Keeps (suc n) count buf chip no_key pos c x =
      let R = Comes P Q in
      let later = section_loop-Keeps n count buf chip no_key in
      Yields-bind R (get_unaligned_le32 buf pos) _ λ opcode.
        Yields-bind R (get_unaligned_le32 buf (pos + 4)) _ λ len.
          section-Keeps count buf chip pos opcode _ c no_key (λ at d y. later (behind at len) d y) x

collect-heap :
    (chip : ChipInfo) (opcode : ℕ) (node : PatchNode) (c : Collected)
    → (collect chip opcode node c).heap ≡ c.heap
unfolding collect
collect-heap chip opcode node c =
    if_cases (λ (d : Collected). d.heap ≡ c.heap) (not (opcode == patch_security_header)) _ _
      (λ _. refl)
      λ _.
        if_cases (λ (d : Collected). d.heap ≡ c.heap)
          (chip.key_id == node.key_id && ltb 0 chip.key_id) _ _ (λ _. refl) (λ _. refl)

-- With a `malloc` that does not fail, the loops never come to a failure.
Given : Invariant (λ c. Exact c × (c.heap ≡ [])) (λ nodes. ⊥)
Given = record {
  collected = λ chip opcode node c heap' plain e x. (
    collect-Exact chip opcode node (record c { heap = heap' }) plain
        (record { sorted = x.0.sorted; length = x.0.length }),
    collect-heap chip opcode node (record c { heap = heap' })
        ∙ sym (ap (λ p. p.1) e)
        ∙ ap (λ h. (malloc h).1) x.1,
  );
  refused =
      λ c heap' e x. true-false (malloc c.heap).0 (ap (λ h. (malloc h).0) x.1) (ap (λ p. p.0) e);
}

-- The length is that of all payloads, and the list is in ascending order.
abbrev pub Ordered : ℕ × List PatchNode → Type 0
Ordered r = IsSorted r.1 × (r.0 ≡ total r.1 % 2 ^ 32)

-- The list is in ascending order, and the length is that of all payloads or 0.
abbrev pub Partial : ℕ × List PatchNode → Type 0
Partial r = IsSorted r.1 × ((r.0 ≡ total r.1 % 2 ^ 32) ⊎ (r.0 ≡ 0))

Partial-length_of : (r : Attempt) → Comes Exact IsSorted r → Partial (length_of r)
Partial-length_of (alloc_fail nodes) x = (x, inr refl)
Partial-length_of (done c) x = (x.sorted, inl x.length)

Ordered-length_of :
    (r : Attempt) → Comes (λ c. Exact c × (c.heap ≡ [])) (λ nodes. ⊥) r → Ordered (length_of r)
Ordered-length_of (alloc_fail nodes) x = absurd x
Ordered-length_of (done c) x = (x.0.sorted, x.0.length)

start-Exact :
    (heap : List Bool) → Exact (record { nodes = []; patch_len = 0; sec_flag = false; heap = heap })
start-Exact heap = record { sorted = unfold IsSorted in tt; length = unfold total in refl }

-- For a chip without a key and any firmware file, where `rtb_get_patch_header` returns: if `malloc`
-- does not fail, the list of patches is in ascending order of priority, and the length is that of
-- all payloads in the list, in 32 bits, which is what the image needs; if `malloc` may fail, the
-- list is in ascending order, and the length is that of all its payloads, or 0, where the list may
-- hold nodes all the same. (With a key the length may be larger than that of the payloads.)
pub rtb_get_patch_header-Ordered :
    (buf : List ℕ) (chip : ChipInfo) (heap : List Bool)
    → chip.key_id ≡ 0
    → Yields Ordered (rtb_get_patch_header buf chip [])
      × Yields Partial (rtb_get_patch_header buf chip heap)
unfolding rtb_get_patch_header
rtb_get_patch_header-Ordered buf chip heap no_key = (
  Yields-bind Ordered (get_unaligned_le32 buf 16) _ (λ count.
      Yields-then (Comes (λ c. Exact c × (c.heap ≡ [])) (λ nodes. ⊥)) Ordered
        (section_loop count count buf chip 20 _) _
        (section_loop-Keeps _ _ Given count count buf chip no_key 20 _ (start-Exact [], refl))
        λ r y. Ordered-length_of r y),
  Yields-bind Partial (get_unaligned_le32 buf 16) _ (λ count.
      Yields-then (Comes Exact IsSorted) Partial (section_loop count count buf chip 20 _) _
        (section_loop-Keeps Exact IsSorted Exact-Invariant count count buf chip no_key 20 _
          (start-Exact heap))
        λ r y. Partial-length_of r y),
)
