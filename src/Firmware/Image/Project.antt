-- ===== src/Firmware/Image/Project.antt =====
-- `rtb_get_fw_project_id` against the list of extension records that a file ends with.
use br_external.Prelude.{
  ℕ, zero, suc, ◌<◌, ◌≡◌, ◌≢◌, refl, ◌∙◌, arith, true, false, ◌&&◌, if◌then◌else◌, ◌==◌, Bool-cases,
  inl, inr, List, [], ◌∷◌, ◌++◌, length, length-append, drop, get_or, All, ok,
}
use br_external.Firmware.Patches.{byte_at}
use br_external.Firmware.Image.{project_loop, rtb_get_fw_project_id}

-- A record: its opcode and its data, in the order in which the loop meets the bytes.
abbrev pub Extension : Type 0
Extension = ℕ × List ℕ

-- The bytes of the records, from the end of the file backwards, up to the mark 0xff.
unfoldable pub layout : List Extension → List ℕ → List ℕ
layout [] front = 0xff ∷ front
layout (e ∷ es) front = e.0 ∷ length e.1 ∷ e.1 ++ layout es front

-- The data of the first record with opcode 0 and a single byte; 0 without one.
unfoldable pub project_of : List Extension → ℕ
project_of [] = 0
project_of (e ∷ es) =
    let later = project_of es in if e.0 == 0 && length e.1 == 1 then get_or e.1 0 0 else later

drop_data : (bytes rest : List ℕ) → drop (length bytes) (bytes ++ rest) ≡ rest
drop_data [] rest = refl
drop_data (x ∷ xs) rest = drop_data xs rest

first_data :
    (bytes rest : List ℕ) → length bytes ≡ 1 → byte_at (bytes ++ rest) 0 ≡ ok (get_or bytes 0 0)
unfolding byte_at
first_data [] rest h = absurd (omega arith)
first_data (x ∷ xs) rest h = ground arith

found :
    (fuel : ℕ) (e : Extension) (es : List Extension) (front : List ℕ)
    → (e.0 == 0 && length e.1 == 1) ≡ true
    → project_loop (suc fuel) (layout (e ∷ es) front) ≡ ok (project_of (e ∷ es))
unfolding project_loop layout project_of
found fuel e es front hit = rw hit (first_data e.1 (layout es front) (ground arith))

passed :
    (fuel : ℕ) (e d : Extension) (es : List Extension) (front : List ℕ)
    → (e.0 == 0 && length e.1 == 1) ≡ false
    → d.0 ≢ 0xff
    → project_loop (suc fuel) (layout (e ∷ d ∷ es) front)
      ≡ project_loop fuel (layout (d ∷ es) front)
unfolding project_loop layout
passed fuel e d es front miss more =
    let go_on : (d.0 == 0xff) ≡ false = ground arith in
    rw (miss, drop_data e.1 (layout (d ∷ es) front)) (rw go_on (ground arith))

project_loop_lem :
    (fuel : ℕ) (e : Extension) (es : List Extension) (front : List ℕ)
    → length es < fuel
    → All (λ x. x.0 ≢ 0xff) es
    → project_loop fuel (layout (e ∷ es) front) ≡ ok (project_of (e ∷ es))
project_loop_lem zero e es front h a = absurd (omega arith)
project_loop_lem (suc fuel) e [] front h a = elim (Bool-cases (e.0 == 0 && length e.1 == 1)) [
  | inl hit ↦ found fuel e [] front hit
  | inr miss ↦
      unfold project_loop layout project_of in
      rw (miss, drop_data e.1 (0xff ∷ front)) (ground arith)
]
project_loop_lem (suc fuel) e (d ∷ es) front h a = elim (Bool-cases (e.0 == 0 && length e.1 == 1)) [
  | inl hit ↦ found fuel e (d ∷ es) front hit
  | inr miss ↦
      passed fuel e d es front miss a.0
      ∙ project_loop_lem fuel d es front (omega arith) a.1
      ∙ (unfold project_of in rw miss)
]

length-layout : (es : List Extension) (front : List ℕ) → length es < length (layout es front)
unfolding layout
length-layout [] front = omega arith
length-layout (e ∷ es) front =
    omega (arith, length-append e.1 (layout es front), length-layout es front)

-- On the extension records of a file (at least one, and none but the first with opcode 0xff), read
-- from the end of the file backwards, `rtb_get_fw_project_id` returns the data of the first record
-- with opcode 0 and a single byte, or 0 without one, and reads nothing in front of the records.
pub rtb_get_fw_project_id-project_of :
    (e : Extension) (es : List Extension) (front : List ℕ)
    → All (λ x. x.0 ≢ 0xff) es
    → rtb_get_fw_project_id (layout (e ∷ es) front) ≡ ok (project_of (e ∷ es))
unfolding rtb_get_fw_project_id
rtb_get_fw_project_id-project_of e es front a =
    project_loop_lem (suc (length (layout (e ∷ es) front))) e es front
      (omega (arith, length-layout (e ∷ es) front)) a
