-- ===== src/Firmware/Chips/Lookup.antt =====
-- Which entry `get_patch_entry` returns.
use br_external.Prelude.{
  ℕ, ◌≡◌, ◌≢◌, refl, ap, arith, bit_and, Bool, true, false, ◌||◌, if◌then◌else◌, ◌==◌, ==_iff,
  Bool-cases, true-false, ◌⊎◌, inl, inr, some, List, [], ◌∷◌, ◌++◌, All,
}
use br_external.Firmware.Chips.{
  PatchInfo, Controller, rtl_fw_match_chip_type, rtl_fw_match_hci_ver, rtl_fw_match_hci_rev,
  patch_table, h4_patch_table, hci_uart_3wire, is_match, find_entry, get_patch_entry,
}

-- A flag that is set asks for equal numbers.
abbrev pub Asks : ℕ → ℕ → ℕ → ℕ → Type 0
Asks flags flag a b = bit_and flags flag ≢ 0 → a ≡ b

-- An entry fits a controller.
pub record Fits (n : PatchInfo) (c : Controller) : Type 0 where
  pub chip : Asks n.match_flags rtl_fw_match_chip_type n.chip_type c.chip_type
  pub ver : Asks n.match_flags rtl_fw_match_hci_ver n.hci_ver c.hci_ver
  pub rev : Asks n.match_flags rtl_fw_match_hci_rev n.hci_rev c.hci_rev
  pub lmp : n.lmp_subver ≡ c.lmp_subver

is_match-Fits : (n : PatchInfo) (c : Controller) → is_match n c ≡ true → Fits n c
unfolding is_match
is_match-Fits n c h = record {
  chip = λ set. ground arith;
  ver = λ set. ground arith;
  rev = λ set. ground arith;
  lmp = ground arith;
}

Fits-is_match : (n : PatchInfo) (c : Controller) → Fits n c → is_match n c ≡ true
unfolding is_match
Fits-is_match n c f = ground (arith, f.chip, f.ver, f.rev, f.lmp)

-- `n` is the first entry of the table that ends the loop.
pub record IsFirst (table : List PatchInfo) (c : Controller) (n : PatchInfo) : Type 0 where
  pub before : List PatchInfo
  pub after : List PatchInfo
  pub parts : table ≡ before ++ n ∷ after
  pub skipped : All (λ m. (m.lmp_subver ≢ 0) × (Fits m c → ⊥)) before
  pub stops : (n.lmp_subver ≡ 0) ⊎ Fits n c

has_end : List PatchInfo → Bool
has_end [] = false
has_end (n ∷ rest) = n.lmp_subver == 0 || has_end rest

abbrev Ends : List PatchInfo → Controller → Type 0
Ends table c = (n : PatchInfo) × (find_entry table c ≡ some n) × IsFirst table c n

find_at :
    (n : PatchInfo) (rest : List PatchInfo) (c : Controller)
    → (n.lmp_subver ≡ 0) ⊎ Fits n c
    → Ends (n ∷ rest) c
unfolding find_entry
find_at n rest c (inl z) = (
  n,
  rw ((==_iff n.lmp_subver 0).1 z),
  record { before = []; after = rest; parts = refl; skipped = tt; stops = inl z },
)
find_at n rest c (inr f) = (
  n,
  rw (Fits-is_match n c f) (ground arith),
  record { before = []; after = rest; parts = refl; skipped = tt; stops = inr f },
)

find_past :
    (n : PatchInfo) (rest : List PatchInfo) (c : Controller)
    → n.lmp_subver ≢ 0
    → is_match n c ≡ false
    → Ends rest c
    → Ends (n ∷ rest) c
unfolding find_entry
find_past n rest c nz other (m, e, f) =
    let go_on : (n.lmp_subver == 0) ≡ false = ground arith in
    (
      m,
      rw (go_on, other) e,
      record {
        before = n ∷ f.before;
        after = f.after;
        parts = ap (λ l. n ∷ l) f.parts;
        skipped =
            ((nz, λ fits. true-false (is_match n c) (Fits-is_match n c fits) other), f.skipped);
        stops = f.stops;
      },
    )

find_entry-Ends : (table : List PatchInfo) (c : Controller) → has_end table ≡ true → Ends table c
unfolding has_end
find_entry-Ends [] c h = true-false false h refl
find_entry-Ends (n ∷ rest) c h = elim (Bool-cases (n.lmp_subver == 0)) [
  | inl z ↦ find_at n rest c (inl ((==_iff n.lmp_subver 0).0 z))
  | inr nz ↦ elim (Bool-cases (is_match n c)) [
    | inl m ↦ find_at n rest c (inr (is_match-Fits n c m))
    | inr other ↦ find_past n rest c (ground arith) other (find_entry-Ends rest c (ground arith))
  ]
]

abbrev pub table_of : Controller → List PatchInfo
table_of c = if c.proto == hci_uart_3wire then patch_table else h4_patch_table

-- For every controller `get_patch_entry` stays within the table of its protocol: it returns the
-- first entry that fits in every field its flags ask for and in `lmp_subver`, or, where none does,
-- the closing entry without `lmp_subver`; no entry before that one fits.
pub get_patch_entry-IsFirst :
    (c : Controller) → (n : PatchInfo) × (get_patch_entry c ≡ some n) × IsFirst (table_of c) c n
unfolding get_patch_entry
get_patch_entry-IsFirst c = find_entry-Ends (table_of c) c ended
  where
    ended : has_end (table_of c) ≡ true
    ended = elim (Bool-cases (c.proto == hci_uart_3wire)) [
      | inl e ↦ rw e (unfold has_end in refl)
      | inr e ↦ rw e (unfold has_end in refl)
    ]
