-- ===== src/Speed/Both.antt =====
-- A speed, turned into the chip's code and back.
use br_external.Prelude.{
  ℕ, ◌≡◌, refl, ap, subst, arith, Bool, true, false, if◌then◌else◌, ◌==◌, ==_iff, ◌||◌, Bool-cases,
  inl, inr, List, [], ◌∷◌, All,
}
use br_external.Speed.{Baud, baudrates, std_of, vendor_of, vendor_speed_to_std, std_speed_to_vendor}

-- Whether a speed is in the table.
unfoldable pub is_listed : List Baud → ℕ → Bool
is_listed [] speed = false
is_listed (b ∷ bs) speed = b.uart_speed == speed || is_listed bs speed

unlisted : (bs : List Baud) (speed : ℕ) → is_listed bs speed ≡ false → vendor_of bs speed ≡ 0x701D
unfolding is_listed vendor_of
unlisted [] speed h = refl
unlisted (b ∷ bs) speed h = ground (arith, unlisted bs speed)

listed :
    (P : ℕ → Type 0) (bs : List Baud) (speed : ℕ)
    → is_listed bs speed ≡ true
    → All (λ b. P b.uart_speed) bs
    → P speed
unfolding is_listed
listed P [] speed h a = absurd (ground arith)
listed P (b ∷ bs) speed h a = elim (Bool-cases (b.uart_speed == speed)) [
  | inl e ↦ subst P ((==_iff _ _).0 e) a.0
  | inr e ↦ listed P bs speed (ground arith) a.1
]

back_unlisted :
    (speed : ℕ)
    → is_listed baudrates speed ≡ false
    → vendor_speed_to_std (std_speed_to_vendor speed) ≡ 115200
unfolding vendor_speed_to_std std_speed_to_vendor
back_unlisted speed e = ap (std_of baudrates) (unlisted baudrates speed e)

-- Every speed, turned into the chip's code and back: a speed of the table comes back, also the one
-- that stands there under two codes, and any other speed comes back as 115200.
pub vendor_speed_to_std-std_speed_to_vendor :
    (speed : ℕ)
    → vendor_speed_to_std (std_speed_to_vendor speed)
      ≡ (if is_listed baudrates speed then speed else 115200)
vendor_speed_to_std-std_speed_to_vendor speed = elim (Bool-cases (is_listed baudrates speed)) [
  | inl e ↦
      rw e (listed (λ s. vendor_speed_to_std (std_speed_to_vendor s) ≡ s) baudrates speed e rows)
  | inr e ↦ rw e (back_unlisted speed e)
]
  where
    rows :
        All (λ b. vendor_speed_to_std (std_speed_to_vendor b.uart_speed) ≡ b.uart_speed) baudrates
    rows =
        unfold vendor_speed_to_std std_speed_to_vendor in
        (refl, (refl, (refl, (refl, (refl, (refl, (refl, (refl, (refl, (refl, (refl, tt)))))))))))
