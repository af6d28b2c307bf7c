-- ===== src/Firmware/Config/Merge.antt =====
-- What `merge_configs` does to the value at each offset.
use br_external.Prelude.{
  ℕ, ◌≡◌, refl, sym, ap, ap₂, ◌∙◌, arith, true, false, ◌==◌, ==_iff, Bool-cases, inl, inr, Option,
  none, some, List, [], ◌∷◌, ◌++◌, append-nil,
}
use br_external.Firmware.Config.{CfgItem, kept_back, merge_all, merge_configs}
use br_external.Firmware.Config.Values.{
  lookup, Distinct, merged, merged_at, first_some, some_none, held_at, held, put, fate_of,
  merge_item-put, lookup-put, put-Distinct, lookup-append,
}

-- The merge of both parts, at every offset.
abbrev AllMerged : List CfgItem × List CfgItem → List CfgItem → List CfgItem → Type 0
AllMerged r extras head = (o : ℕ) → lookup o (r.0 ++ r.1) ≡ merged (lookup o extras) (lookup o head)

-- An item that is held back stands in front of those that follow it.
lookup-kept_back :
    (o : ℕ) (extra : CfgItem) (old : Option (List ℕ)) (rest : List CfgItem)
    → lookup o (kept_back extra (fate_of old extra.bytes) rest) ≡ held o extra old (lookup o rest)
unfolding lookup
lookup-kept_back o extra none rest = refl
lookup-kept_back o extra (some old) rest = ground arith

at_extra :
    (a b : Option (List ℕ)) (new : List ℕ) (old : Option (List ℕ))
    → first_some a b ≡ merged none (merged_at new old)
    → first_some a (held_at new old b) ≡ merged (some new) old
at_extra none b new none h = refl
at_extra (some x) b new none h = absurd (some_none x h)
at_extra a b new (some old) h = h

module _ (o : ℕ) (extra : CfgItem) (extras head : List CfgItem) (a b : Option (List ℕ))
    (e : lookup extra.offset extras ≡ none)
    (h : first_some a b ≡ merged (lookup o extras) (lookup o (put extra head))) where
  abbrev Stepped : Type 0
  Stepped =
      first_some a (held o extra (lookup extra.offset head) b)
      ≡ merged (lookup o (extra ∷ extras)) (lookup o head)

  step_at : (o == extra.offset) ≡ true → Stepped
  unfolding lookup
  step_at test =
      let q : o ≡ extra.offset = (==_iff o extra.offset).0 test in
      let old : lookup o head ≡ lookup extra.offset head = ap (λ k. lookup k head) q in
      let none_left : lookup o extras ≡ none = ap (λ k. lookup k extras) q ∙ e in
      let put_value : lookup o (put extra head) ≡ merged_at extra.bytes (lookup extra.offset head) =
        lookup-put o extra head ∙ rw (test, old) in
      rw (test, old)
        (at_extra a b extra.bytes (lookup extra.offset head) (h ∙ ap₂ merged none_left put_value))

  step_past : (o == extra.offset) ≡ false → Stepped
  unfolding lookup
  step_past test =
      let put_value : lookup o (put extra head) ≡ lookup o head =
        lookup-put o extra head ∙ rw test in
      rw test (h ∙ ap (merged (lookup o extras)) put_value)

  stepped : Stepped
  stepped = elim (Bool-cases (o == extra.offset)) [
    | inl test ↦ step_at test
    | inr test ↦ step_past test
  ]

merge_step :
    (o : ℕ) (extra : CfgItem) (extras head : List CfgItem) (r : List CfgItem × List CfgItem)
    → lookup extra.offset extras ≡ none
    → lookup o (r.0 ++ r.1) ≡ merged (lookup o extras) (lookup o (put extra head))
    → lookup o (r.0 ++ kept_back extra (fate_of (lookup extra.offset head) extra.bytes) r.1)
      ≡ merged (lookup o (extra ∷ extras)) (lookup o head)
merge_step o extra extras head r e h =
    let old = lookup extra.offset head in
    lookup-append o r.0 (kept_back extra (fate_of old extra.bytes) r.1)
    ∙ ap (first_some (lookup o r.0)) (lookup-kept_back o extra old r.1)
    ∙ stepped o extra extras head (lookup o r.0) (lookup o r.1) e
        (sym (lookup-append o r.0 r.1) ∙ h)

merged-none : (x : Option (List ℕ)) → x ≡ merged x none
merged-none none = refl
merged-none (some x) = refl

merge_all-AllMerged :
    (extras head : List CfgItem)
    → Distinct head
    → Distinct extras
    → AllMerged (merge_all head extras) extras head
unfolding merge_all Distinct
merge_all-AllMerged [] head d e o = unfold lookup in ap (lookup o) (append-nil head)
merge_all-AllMerged (extra ∷ extras) head d e o =
    let m = merge_item-put extra head d in
    let later = merge_all-AllMerged extras (put extra head) (put-Distinct extra head d) e.1 o in
    rw m (merge_step o extra extras head (merge_all (put extra head) extras) e.0 later)

-- Where no offset stands twice in either list, `merge_configs` gives at every offset: the value of
-- the first list where the extra items have none, the extra value where the first list has none,
-- and where both have one, the extra value, followed by the end of the old one if that is longer.
pub merge_configs-merged :
    (head extras : List CfgItem) (o : ℕ)
    → Distinct head
    → Distinct extras
    → lookup o (merge_configs head extras) ≡ merged (lookup o extras) (lookup o head)
unfolding merge_configs lookup
merge_configs-merged head [] o d e = refl
merge_configs-merged [] (extra ∷ extras) o d e = merged-none (lookup o (extra ∷ extras))
merge_configs-merged (n ∷ ns) (extra ∷ extras) o d e =
    merge_all-AllMerged (extra ∷ extras) (n ∷ ns) d e o
