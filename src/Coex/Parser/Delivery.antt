-- ===== src/Coex/Parser/Delivery.antt =====
-- A whole event, given to `rtk_btcoex_parse_event` of rtk_coex.c, and the node that it is kept in.
use br_external.Prelude.{
  ℕ, zero, suc, ◌+◌, ◌≤◌, ◌<◌, ◌≡◌, refl, sym, ap, ◌∙◌, arith, Bool, true, false, if◌then◌else◌,
  ◌==◌, ltb, none, some, List, [], ◌∷◌, ◌++◌, length, length-take, take-take, take_self,
  take-length_append, get_or-set, take, drop, set, All, length-set, Bool-cases, inl, inr,
}
use br_external.Coex.State.{Coex, Pools, HciEv}
use br_external.Coex.Hci.{Hci, HasSizes}
use br_external.Coex.Pools.{
  rtk_btcoex_evt_enqueue, ev_filter_out, stored, rtl_ev_node_get, rtl_ev_node_to_used,
}
use br_external.Coex.Parser.{Assembly, min_of, assembly, rtk_btcoex_parse_event}
use br_external.Coex.Parser.Bytes.{IsByte, Valid, step_byte, feed, feed-append}
use br_external.Coex.Parser.Pieces.{copy_at, copy_at-one, copy_at-cons}
use br_external.Coex.Parser.Whole.{stored_in, rtk_btcoex_parse_event-feed}

-- A frame of which `q` bytes are to come at the place `p`, behind the header.
abbrev inside : ℕ → ℕ → List ℕ → Assembly → Assembly
inside p q back a = record a {
  frags = record a.frags { back_buff = back; elen = p; tbuff = some p; expect = q };
}

abbrev delivered : Hci → ℕ → List ℕ → Assembly → Assembly
delivered hci n back a = record a {
  frags = record a.frags { back_buff = back; elen = 0; tbuff = none; expect = 0 };
  pools = rtk_btcoex_evt_enqueue hci back n a.pools;
}

step_byte-inside :
    (hci : Hci) (p q b : ℕ) (back : List ℕ) (a : Assembly)
    → 2 ≤ p
    → step_byte hci b (inside p (suc q) back a) ≡ (
        if q == 0
        then delivered hci (p + 1) (set back p b) a
        else inside (p + 1) q (set back p b) a)
unfolding step_byte
step_byte-inside hci p q b back a far = ground arith

feed-rest :
    (hci : Hci) (ps : List ℕ) (p b : ℕ) (back : List ℕ) (a : Assembly)
    → 2 ≤ p
    → p + suc (length ps) ≤ length back
    → feed hci (b ∷ ps) (inside p (suc (length ps)) back a)
      ≡ delivered hci (p + suc (length ps)) (copy_at back p (b ∷ ps)) a
unfolding feed
feed-rest hci [] p b back a far room =
    rw (step_byte-inside hci p 0 b back a far, copy_at-one back p b (omega arith))
feed-rest hci (b' ∷ ps) p b back a far room =
    let l = length-set back p b in
    let ih = feed-rest hci ps (p + 1) b' (set back p b) a (omega arith) (omega (arith, l)) in
    let e : p + 1 + suc (length ps) ≡ p + suc (suc (length ps)) = omega arith in
    let m : (suc (length ps) == 0) ≡ false = ground arith in
    rw (step_byte-inside hci p (suc (length ps)) b back a far, m)
      (rw (copy_at-cons back p b (b' ∷ ps) (omega arith), e) at ih)

-- The two bytes of the header.
header_in :
    (hci : Hci) (code plen : ℕ) (a : Assembly)
    → a.frags.tbuff ≡ none
    → 2 ≤ length a.frags.back_buff
    → feed hci (code ∷ plen ∷ []) a ≡ (
        if plen == 0
        then delivered hci 2 (set (set a.frags.back_buff 0 code) 1 plen) a
        else inside 2 plen (set (set a.frags.back_buff 0 code) 1 plen) a)
unfolding feed step_byte
header_in hci code plen a e room =
    let g =
      get_or-set (set a.frags.back_buff 0 code) 1 1 plen 0
        (omega (arith, length-set a.frags.back_buff 0 code)) in
    ground (arith, e, g)

take-copy_at :
    (code plen : ℕ) (ps back : List ℕ)
    → 2 + length ps ≤ length back
    → take (2 + length ps) (copy_at (set (set back 0 code) 1 plen) 2 ps) ≡ code ∷ plen ∷ ps
unfolding copy_at
take-copy_at code plen ps [] h = absurd (omega arith)
take-copy_at code plen ps (x ∷ []) h = absurd (omega arith)
take-copy_at code plen ps (x ∷ y ∷ back) h =
    let e : 2 + length ps ≡ suc (suc (length ps)) = omega arith in
    rw e (ap (λ t. code ∷ plen ∷ t) (take-length_append ps (drop (length ps) back)))

-- An event as it stands in the buffer, with what older events left behind it.
abbrev pub Holds : List ℕ → List ℕ → Type 0
Holds back bytes = take (length bytes) back ≡ bytes

pub record Delivered (hci : Hci) (bytes : List ℕ) (s t : Coex) : Type 0 where
  pub back : List ℕ
  pub holds : Holds back bytes
  pub queued : t.pools ≡ rtk_btcoex_evt_enqueue hci back (length bytes) s.pools
  pub between : t.frags.tbuff ≡ none

copy_at-nil : (back : List ℕ) (at : ℕ) → copy_at back at [] ≡ back
unfolding copy_at
copy_at-nil back zero = refl
copy_at-nil [] (suc at) = let e : suc at + 0 ≡ suc (at + 0) = omega arith in rw e
copy_at-nil (x ∷ xs) (suc at) =
    let e : suc at + 0 ≡ suc (at + 0) = omega arith in rw e (ap (λ t. x ∷ t) (copy_at-nil xs at))

feed-event :
    (hci : Hci) (code : ℕ) (ps : List ℕ) (a : Assembly)
    → a.frags.tbuff ≡ none
    → 2 + length ps ≤ length a.frags.back_buff
    → feed hci (code ∷ length ps ∷ ps) a
      ≡ delivered hci
          (2 + length ps)
          (copy_at (set (set a.frags.back_buff 0 code) 1 (length ps)) 2 ps)
          a
feed-event hci code [] a e room =
    rw (
      header_in hci code 0 a e (omega arith),
      copy_at-nil (set (set a.frags.back_buff 0 code) 1 0) 2,
    )
feed-event hci code (b ∷ ps) a e room =
    let n = suc (length ps) in
    let back = set (set a.frags.back_buff 0 code) 1 n in
    let l : length back ≡ length a.frags.back_buff =
      length-set (set a.frags.back_buff 0 code) 1 n ∙ length-set a.frags.back_buff 0 code in
    let m : (n == 0) ≡ false = ground arith in
    feed-append hci (code ∷ n ∷ []) (b ∷ ps) a
    ∙ rw (header_in hci code n a e (omega arith), m)
        (feed-rest hci ps 2 b back a (omega arith) (omega (arith, l)))

-- While coexistence is open (`running`), where the sizes are those of the standard and the pieces
-- kept are valid, with no event begun (`tbuff` is null): of a whole event, with a code below 256 and
-- fewer than 256 parameters that are bytes, what is queued is its bytes, with nothing of the next
-- one waiting. Where older events left longer rests in `back_buff`, they stand behind it and outside
-- its length.
pub rtk_btcoex_parse_event-Delivered :
    (hci : Hci) (code : ℕ) (ps : List ℕ) (s : Coex)
    → HasSizes hci
    → code < 256
    → All IsByte ps
    → length ps < 256
    → Valid s.frags
    → s.frags.tbuff ≡ none
    → s.running ≡ true
    → Delivered hci
        (code ∷ length ps ∷ ps)
        s
        (rtk_btcoex_parse_event hci (code ∷ length ps ∷ ps) s).1
rtk_btcoex_parse_event-Delivered hci code ps s z c bytes fits v none_yet on =
    let a = assembly s in
    let event = code ∷ length ps ∷ ps in
    let back = copy_at (set (set s.frags.back_buff 0 code) 1 (length ps)) 2 ps in
    let whole = rtk_btcoex_parse_event-feed hci event s z (c, (fits, bytes)) v on in
    let f = feed-event hci code ps a none_yet (omega (arith, v.room)) in
    let n : suc (suc (length ps)) ≡ 2 + length ps = omega arith in
    let end : (rtk_btcoex_parse_event hci event s).1
        ≡ stored_in (delivered hci (2 + length ps) back a) s =
      ap (λ (r : Bool × Coex). r.1) whole.0 ∙ ap (λ (r : Assembly). stored_in r s) f in
    record {
      back = back;
      holds = rw n (take-copy_at code (length ps) ps s.frags.back_buff (omega (arith, v.room)));
      queued = rw (end, n);
      between = rw end;
    }

abbrev pub kept_len : List ℕ → ℕ
kept_len bytes = min_of (length bytes) 32

take-kept_len : (bytes : List ℕ) → take (kept_len bytes) bytes ≡ take 32 bytes
take-kept_len bytes = elim (Bool-cases (ltb (length bytes) 32)) [
  | inl short ↦
      rw short
        (take_self (length bytes) bytes (omega arith) ∙ sym (take_self 32 bytes (ground arith)))
  | inr long ↦ rw long
]

-- An event that the filter passes, with a free node: the node goes to the end of the used ones, and
-- holds the event, or its first 32 bytes, and this length.
pub rtk_btcoex_evt_enqueue-kept :
    (hci : Hci) (back bytes : List ℕ) (ev : HciEv) (evs : List HciEv) (p : Pools)
    → Holds back bytes
    → ev_filter_out hci back ≡ false
    → p.buffers ≡ true
    → p.ev_free_list ≡ ev ∷ evs
    → (node : HciEv) × ((rtk_btcoex_evt_enqueue hci back (length bytes) p).ev_used_list
        ≡ p.ev_used_list ++ node ∷ [])
      × (node.len ≡ kept_len bytes)
      × (take (kept_len bytes) node.bytes ≡ take 32 bytes)
unfolding rtk_btcoex_evt_enqueue stored rtl_ev_node_get rtl_ev_node_to_used
rtk_btcoex_evt_enqueue-kept hci back bytes ev evs p h passes there free =
    let n = kept_len bytes in
    let len : (if ltb 32 (length bytes) then 32 else length bytes) ≡ n = ground arith in
    let start : take n back ≡ take n bytes =
      sym (take-take n (length bytes) back (ground arith)) ∙ ap (take n) h in
    let size : length (take n bytes) ≡ n = length-take n bytes (ground arith) in
    let rest = drop n ev.bytes in
    let again : take n (take n bytes ++ rest) ≡ take n bytes =
      rw size at (take-length_append (take n bytes) rest) in
    (
      stored back (length bytes) ev,
      ground (arith, passes, there, free),
      len,
      rw (len, start, size) (again ∙ take-kept_len bytes),
    )
