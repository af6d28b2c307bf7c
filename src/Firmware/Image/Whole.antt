-- ===== src/Firmware/Image/Whole.antt =====
-- The images that `rtb_get_final_patch` puts together.
use br_external.Prelude.{
  ℕ, zero, suc, ◌+◌, ◌-◌, ◌≤◌, ◌≡◌, ◌≢◌, refl, sym, ap, ◌∙◌, arith, Bool, true, false, ltb, ◌==◌,
  some, List, [], ◌∷◌, ◌++◌, length, length-append, length-take, length-drop_add, append-nil,
  append_assoc, take, drop, take-length_append, ok,
}
use br_external.Firmware.Patches.{PatchNode}
use br_external.Firmware.Patches.Sorted.{total}
use br_external.Firmware.Sections.{rtb_get_patch_header}
use br_external.Firmware.Image.{
  slice, put, put_nodes, new_image, old_image, image_of, Files, PatchEntry, rtb_get_patch_entry,
}

drop_front : (xs ys : List ℕ) (n : ℕ) → n ≡ length xs → drop n (xs ++ ys) ≡ ys
drop_front [] ys n e = ap (λ k. drop k ys) e
drop_front (x ∷ xs) ys n e = ap (λ k. drop k (x ∷ xs ++ ys)) e ∙ drop_front xs ys (length xs) refl

take_front : (xs ys : List ℕ) (n : ℕ) → n ≡ length xs → take n (xs ++ ys) ≡ xs
take_front xs ys n e = ap (λ k. take k (xs ++ ys)) e ∙ take-length_append xs ys

-- A slice of a buffer in three parts.
slice_part :
    (xs ys zs : List ℕ) (at n : ℕ)
    → at ≡ length xs
    → n ≡ length ys
    → slice (xs ++ (ys ++ zs)) at n ≡ ok ys
unfolding slice
slice_part xs ys zs at n e f =
    let within : ltb (length (xs ++ (ys ++ zs))) (at + n) ≡ false =
      ground (arith, length-append xs (ys ++ zs), length-append ys zs) in
    rw (within, drop_front xs (ys ++ zs) at e) (ap ok (take_front ys zs n f))

-- The middle part of a block is written over.
put_part :
    (xs old zs new : List ℕ) (at : ℕ)
    → at ≡ length xs
    → length new ≡ length old
    → put (xs ++ (old ++ zs)) at new ≡ ok (xs ++ (new ++ zs))
unfolding put
put_part xs old zs new at e f =
    let within : ltb (length (xs ++ (old ++ zs))) (at + length new) ≡ false =
      ground (arith, length-append xs (old ++ zs), length-append old zs) in
    let behind : drop (at + length new) (xs ++ (old ++ zs)) ≡ zs =
      ap (drop (at + length new)) (sym (append_assoc xs old zs))
      ∙ drop_front (xs ++ old) zs (at + length new) (omega (arith, length-append xs old)) in
    rw (within, behind, take_front xs (old ++ zs) at e)

-- The payload of each patch of a list, within the file.
abbrev pub Payloads : List ℕ → List PatchNode → List (List ℕ) → Type 0
Payloads fw [] [] = Unit
Payloads fw [] (b ∷ bs) = ⊥
Payloads fw (n ∷ ns) [] = ⊥
Payloads fw (n ∷ ns) (b ∷ bs) =
    (slice fw n.payload n.len ≡ ok b) × (length b ≡ n.len) × Payloads fw ns bs

abbrev pub joined : List (List ℕ) → List ℕ
joined [] = []
joined (b ∷ bs) = b ++ joined bs

take-drop : (n : ℕ) (xs : List ℕ) → take n xs ++ drop n xs ≡ xs
take-drop zero xs = refl
take-drop (suc n) [] = refl
take-drop (suc n) (x ∷ xs) = ap (λ l. x ∷ l) (take-drop n xs)

-- A block that is filled from its start.
put_start :
    (block new : List ℕ) (p c : ℕ)
    → length new ≡ p
    → length block ≡ p + c
    → put block 0 new ≡ ok (new ++ drop p block)
put_start block new p c e f =
    ap (λ b. put b 0 new) (sym (take-drop p block))
    ∙ put_part [] (take p block) (drop p block) new 0 refl
        (e ∙ sym (length-take p block (omega (arith, f))))

-- A block that is filled to its end.
put_end :
    (xs old new : List ℕ) (at : ℕ)
    → at ≡ length xs
    → length new ≡ length old
    → put (xs ++ old) at new ≡ ok (xs ++ new)
put_end xs old new at e f =
    ap (λ b. put (xs ++ b) at new) (sym (append-nil old))
    ∙ put_part xs old [] new at e f
    ∙ ap (λ b. ok (xs ++ b)) (append-nil new)

-- The payloads go one behind the other into a block with room for them.
abbrev Filled : List ℕ → List PatchNode → List (List ℕ) → List ℕ → List ℕ → ℕ → Type 0
Filled fw ns parts done free at =
    (left : List ℕ) × (put_nodes fw ns (done ++ free) at ≡ ok (done ++ (joined parts ++ left)))
    × (length left + total ns ≡ length free)

put_nodes-Filled :
    (fw : List ℕ) (ns : List PatchNode) (parts : List (List ℕ)) (done free : List ℕ) (at : ℕ)
    → Payloads fw ns parts
    → at ≡ length done
    → total ns ≤ length free
    → Filled fw ns parts done free at
unfolding put_nodes total
put_nodes-Filled fw [] [] done free at p e room = (free, refl, omega arith)
put_nodes-Filled fw [] (b ∷ bs) done free at p e room = absurd p
put_nodes-Filled fw (n ∷ ns) [] done free at p e room = absurd p
put_nodes-Filled fw (n ∷ ns) (b ∷ bs) done free at p e room =
    let rest = drop n.len free in
    let rest_len = length-drop_add n.len free (omega arith) in
    let step : put (done ++ free) at b ≡ ok ((done ++ b) ++ rest) =
      ap (λ l. put (done ++ l) at b) (sym (take-drop n.len free))
      ∙ put_part done (take n.len free) rest b at e
          (p.1 ∙ sym (length-take n.len free (omega arith)))
      ∙ ap ok (sym (append_assoc done b rest)) in
    let (left, q, size) =
      put_nodes-Filled fw ns bs (done ++ b) rest (at + n.len) p.2
        (omega (arith, e, p.1, length-append done b)) (omega (arith, rest_len)) in
    let order : (done ++ b) ++ (joined bs ++ left) ≡ done ++ ((b ++ joined bs) ++ left) =
      append_assoc done b (joined bs ++ left)
      ∙ ap (λ l. done ++ l) (sym (append_assoc b (joined bs) left)) in
    (left, rw (p.0, step, q) (ap ok order), omega (arith, size, rest_len))

length-joined :
    (fw : List ℕ) (ns : List PatchNode) (parts : List (List ℕ))
    → Payloads fw ns parts
    → length (joined parts) ≡ total ns
unfolding total
length-joined fw [] [] p = refl
length-joined fw [] (b ∷ bs) p = absurd p
length-joined fw (n ∷ ns) [] p = absurd p
length-joined fw (n ∷ ns) (b ∷ bs) p =
    omega (arith, length-append b (joined bs), length-joined fw ns bs p.2, p.1)

module _ (s : Files) (heap : List Bool) (block : ℕ → List ℕ)
    (whole : (n : ℕ) → length (block n) ≡ n) where
  module _ (entry : PatchEntry) (pre front last post signature version rest : List ℕ)
      (found : rtb_get_patch_entry s.fw_buf s.chip.eversion heap ≡ ok (some entry))
      (patch : s.fw_buf ≡ pre ++ ((front ++ last) ++ post))
      (head : s.fw_buf ≡ signature ++ (version ++ rest)) (offset : entry.soffset ≡ length pre)
      (len : entry.patch_len ≡ length (front ++ last)) (last4 : length last ≡ 4)
      (signature8 : length signature ≡ 8) (version4 : length version ≡ 4) where
    abbrev config_len : ℕ
    config_len = length s.config_buf

    abbrev fresh_block : List ℕ
    fresh_block = block (entry.patch_len + config_len)

    abbrev free : List ℕ
    free = drop entry.patch_len fresh_block

    the_patch : slice s.fw_buf entry.soffset entry.patch_len ≡ ok (front ++ last)
    the_patch =
        ap (λ b. slice b entry.soffset entry.patch_len) patch
        ∙ slice_part pre (front ++ last) post entry.soffset entry.patch_len offset len

    the_version : slice s.fw_buf 8 4 ≡ ok version
    the_version =
        ap (λ b. slice b 8 4) head
        ∙ slice_part signature version rest 8 4 (sym signature8) (sym version4)

    with_version :
        put ((front ++ last) ++ free) (entry.patch_len - 4) version
        ≡ ok (front ++ (version ++ free))
    with_version =
        ap (λ b. put b (entry.patch_len - 4) version) (append_assoc front last free)
        ∙ put_part front last free version (entry.patch_len - 4)
            (omega (arith, len, last4, length-append front last)) (version4 ∙ sym last4)

    free_len : length free ≡ config_len
    free_len = omega (
      arith,
      length-drop_add entry.patch_len fresh_block
          (omega (arith, whole (entry.patch_len + config_len))),
      whole (entry.patch_len + config_len),
    )

    with_config :
        put (front ++ (version ++ free)) entry.patch_len s.config_buf
        ≡ ok (front ++ (version ++ s.config_buf))
    with_config =
        ap (λ b. put b entry.patch_len s.config_buf) (sym (append_assoc front version free))
        ∙ put_end (front ++ version) free s.config_buf entry.patch_len
            (omega
              (arith, len, last4, version4, length-append front last, length-append front version))
            (sym free_len)
        ∙ ap ok (append_assoc front version s.config_buf)

    -- For a file of the old kind with a patch for this chip of at least four bytes, within the file:
    -- the image is the patch, its last four bytes replaced by the firmware's version, and the
    -- configuration behind it; every byte of the allocated block is written, none outside it.
    pub old_image-patch :
        old_image s true heap block ≡ ok (some (front ++ (version ++ s.config_buf)))
    unfolding old_image image_of
    old_image-patch =
        let long : ltb entry.patch_len 4 ≡ false =
          ground (arith, len, last4, length-append front last) in
        rw (
          found,
          the_patch,
          put_start fresh_block (front ++ last) entry.patch_len config_len (sym len)
              (whole (entry.patch_len + config_len)),
          the_version,
          long,
          with_version,
          with_config,
        )

  module _ (len : ℕ) (nodes : List PatchNode) (parts : List (List ℕ))
      (collected : rtb_get_patch_header s.fw_buf s.chip heap ≡ ok (len, nodes))
      (exact : len ≡ total nodes) (some_patch : len ≢ 0)
      (inside : Payloads s.fw_buf nodes parts) where
    -- For a file of the new kind whose patches lie within the file, and where the length that
    -- `rtb_get_patch_header` returns is the length of the payloads in its list and not 0: the image
    -- is these payloads, one behind the other in the list's order, and the configuration behind
    -- them; every byte of the allocated block is written, none outside it.
    pub new_image-joined : new_image s true heap block ≡ ok (some (joined parts ++ s.config_buf))
    unfolding new_image
    new_image-joined =
        let n = len + length s.config_buf in
        let (left, filled, size) =
          put_nodes-Filled s.fw_buf nodes parts [] (block n) 0 inside refl
            (omega (arith, whole n)) in
        let go_on : (len == 0) ≡ false = ground arith in
        let config : put (joined parts ++ left) len s.config_buf
            ≡ ok (joined parts ++ s.config_buf) =
          put_end (joined parts) left s.config_buf len
            (exact ∙ sym (length-joined s.fw_buf nodes parts inside))
            (omega (arith, size, whole n)) in
        rw (collected, go_on, filled, config)
