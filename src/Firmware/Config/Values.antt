-- ===== src/Firmware/Config/Values.antt =====
-- The values that a list of items holds, and what one extra item does to them in `merge_configs`.
use br_external.Prelude.{
  ℕ, ◌≡◌, refl, ap, ◌∙◌, arith, Bool, true, false, if◌then◌else◌, ltb, ◌==◌, ==_iff, Bool-cases,
  if_cases, inl, inr, Option, none, some, List, [], ◌∷◌, ◌++◌, length, drop,
}
use br_external.Firmware.Config.{CfgItem, Fate, unmatched, placed, copied, merge_item}

-- The first item at an offset.
unfoldable pub lookup : ℕ → List CfgItem → Option (List ℕ)
lookup o [] = none
lookup o (n ∷ ns) = let next = lookup o ns in if o == n.offset then some n.bytes else next

-- Every offset stands once at most.
unfoldable pub Distinct : List CfgItem → Type 0
Distinct [] = Unit
Distinct (n ∷ ns) = (lookup n.offset ns ≡ none) × Distinct ns

-- A longer value keeps its end; else the new value replaces it.
abbrev pub overlay : List ℕ → List ℕ → List ℕ
overlay new old = if ltb (length new) (length old) then new ++ drop (length new) old else new

-- The value at an offset after the merge, from the values of the extra and of the first list.
abbrev pub merged : Option (List ℕ) → Option (List ℕ) → Option (List ℕ)
merged none old = old
merged (some new) none = some new
merged (some new) (some old) = some (overlay new old)

-- The value of an item that is there, overlaid.
abbrev pub merged_at : List ℕ → Option (List ℕ) → Option (List ℕ)
merged_at new none = none
merged_at new (some old) = some (overlay new old)

abbrev pub first_some : Option (List ℕ) → Option (List ℕ) → Option (List ℕ)
first_some none later = later
first_some (some x) later = some x

pub some_none : {A : Type 0} (x : List ℕ) → some x ≡ none → A
some_none x h = ground arith

-- The value at the offset of an extra item that may be held back.
abbrev pub held_at : List ℕ → Option (List ℕ) → Option (List ℕ) → Option (List ℕ)
held_at new none later = some new
held_at new (some old) later = later

abbrev pub held : ℕ → CfgItem → Option (List ℕ) → Option (List ℕ) → Option (List ℕ)
held o extra old later = if o == extra.offset then held_at extra.bytes old later else later

-- What an extra item does to a list without duplicates.
unfoldable pub put : CfgItem → List CfgItem → List CfgItem
put extra [] = []
put extra (n ∷ ns) =
    let rest = put extra ns in
    if extra.offset == n.offset
    then record n { bytes = overlay extra.bytes n.bytes } ∷ ns
    else n ∷ rest

abbrev pub fate_of : Option (List ℕ) → List ℕ → Fate
fate_of none new = unmatched
fate_of (some old) new = if ltb (length new) (length old) then copied else placed

absent_head :
    (o : ℕ) (n : CfgItem) (ns : List CfgItem) → lookup o (n ∷ ns) ≡ none → (o == n.offset) ≡ false
unfolding lookup
absent_head o n ns h = ground arith

absent_tail :
    (o : ℕ) (n : CfgItem) (ns : List CfgItem) → lookup o (n ∷ ns) ≡ none → lookup o ns ≡ none
unfolding lookup
absent_tail o n ns h = ground arith

merge_item_absent :
    (extra : CfgItem) (ns : List CfgItem)
    → lookup extra.offset ns ≡ none
    → merge_item extra ns ≡ (unmatched, ns)
unfolding merge_item
merge_item_absent extra [] h = refl
merge_item_absent extra (n ∷ ns) h =
    rw (
      absent_head extra.offset n ns h,
      merge_item_absent extra ns (absent_tail extra.offset n ns h),
    )

put_absent :
    (extra : CfgItem) (ns : List CfgItem) → lookup extra.offset ns ≡ none → put extra ns ≡ ns
unfolding put
put_absent extra [] h = refl
put_absent extra (n ∷ ns) h =
    rw (absent_head extra.offset n ns h, put_absent extra ns (absent_tail extra.offset n ns h))

abbrev Step : Type 0
Step = Fate × List CfgItem

by_size :
    (shorter : Bool) (extra n : CfgItem) (ns : List CfgItem) (joined : List ℕ)
    → extra.offset ≡ n.offset
    → ◌≡◌ {A = Step}
        (if shorter then (copied, record n { bytes = joined } ∷ ns) else (placed, extra ∷ ns))
        (
          if shorter then copied else placed,
          record n { bytes = if shorter then joined else extra.bytes } ∷ ns,
        )
by_size true extra n ns joined e = refl
by_size false extra n ns joined e = ap (λ o. (placed, record extra { offset = o } ∷ ns)) e

merge_item_here :
    (extra n : CfgItem) (ns : List CfgItem)
    → extra.offset ≡ n.offset
    → lookup n.offset ns ≡ none
    → merge_item extra (n ∷ ns)
      ≡ (fate_of (some n.bytes) extra.bytes, record n { bytes = overlay extra.bytes n.bytes } ∷ ns)
unfolding merge_item
merge_item_here extra n ns e d =
    let same : (extra.offset == n.offset) ≡ true = (==_iff _ _).1 e in
    let rest : merge_item extra ns ≡ (unmatched, ns) =
      merge_item_absent extra ns (ap (λ o. lookup o ns) e ∙ d) in
    rw (same, rest)
      (by_size (ltb (length extra.bytes) (length n.bytes)) extra n ns
        (extra.bytes ++ drop (length extra.bytes) n.bytes) e)

pub merge_item-put :
    (extra : CfgItem) (ns : List CfgItem)
    → Distinct ns
    → merge_item extra ns ≡ (fate_of (lookup extra.offset ns) extra.bytes, put extra ns)
unfolding put lookup Distinct merge_item
merge_item-put extra [] d = refl
merge_item-put extra (n ∷ ns) d = elim (Bool-cases (extra.offset == n.offset)) [
  | inl e ↦ merge_item_here extra n ns ((==_iff _ _).0 e) d.0 ∙ rw e
  | inr e ↦ rw (e, merge_item-put extra ns d.1)
]

pub lookup-put :
    (o : ℕ) (extra : CfgItem) (ns : List CfgItem)
    → lookup o (put extra ns)
      ≡ (if o == extra.offset then merged_at extra.bytes (lookup o ns) else lookup o ns)
unfolding lookup put
lookup-put o extra [] = ground arith
lookup-put o extra (n ∷ ns) = ground (arith, lookup-put o extra ns)

pub put-Distinct : (extra : CfgItem) (ns : List CfgItem) → Distinct ns → Distinct (put extra ns)
unfolding Distinct put
put-Distinct extra [] d = d
put-Distinct extra (n ∷ ns) d =
    if_cases Distinct (extra.offset == n.offset) _ _ (λ _. d)
      (λ e. (
        lookup-put n.offset extra ns
            ∙ (let other : (n.offset == extra.offset) ≡ false = ground arith in rw other d.0),
        put-Distinct extra ns d.1,
      ))

pub lookup-append :
    (o : ℕ) (xs ys : List CfgItem) → lookup o (xs ++ ys) ≡ first_some (lookup o xs) (lookup o ys)
unfolding lookup
lookup-append o [] ys = refl
lookup-append o (x ∷ xs) ys = ground (arith, lookup-append o xs ys)
