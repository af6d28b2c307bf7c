-- ===== src/Coex/Parser/Bytes.antt =====
-- A machine that puts HCI events together byte after byte: what `rtk_btcoex_parse_event` of
-- rtk_coex.c is compared with.
use br_external.Prelude.{
  ℕ, ◌+◌, ◌-◌, ◌≤◌, ◌<◌, ◌≡◌, refl, ◌∙◌, arith, if◌then◌else◌, if_cases, ◌==◌, Option, none, some,
  List, [], ◌∷◌, ◌++◌, length, set, get_or, All, All-set, length-set, get_or-All,
}
use br_external.Coex.State.{Frags}
use br_external.Coex.Hci.{Hci}
use br_external.Coex.Pools.{rtk_btcoex_evt_enqueue}
use br_external.Coex.Parser.{Assembly, dropped}

abbrev pub IsByte : ℕ → Type 0
IsByte b = b < 256

-- In a frame, bytes are still to come, and the header comes first.
abbrev pub Within : Option ℕ → ℕ → ℕ → Type 0
Within none elen expect = Unit
Within (some at) elen expect =
    (at ≡ elen) × (0 < expect) × (elen + expect ≤ 257) × (elen < 2 → elen + expect ≡ 2)

pub record Valid (f : Frags) : Type 0 where
  pub room : length f.back_buff ≡ 260
  pub bytes : All IsByte f.back_buff
  pub within : Within f.tbuff f.elen f.expect

-- The place of the next byte, and how many come after it as far as is known.
abbrev pub place : Option ℕ → ℕ → ℕ
place none elen = 0
place (some at) elen = elen

abbrev pub behind : Option ℕ → ℕ → ℕ
behind none expect = 1
behind (some at) expect = expect - 1

-- One byte: it is stored; the second byte of a frame says how many follow; a frame with nothing to
-- follow goes to the queue.
unfoldable pub step_byte : Hci → ℕ → Assembly → Assembly
step_byte hci b a =
    let at = place a.frags.tbuff a.frags.elen in
    let back = set a.frags.back_buff at b in
    let left = if at == 1 then get_or back 1 0 else behind a.frags.tbuff a.frags.expect in
    let f = record a.frags {
      back_buff = back;
      elen = at + 1;
      tbuff = some (at + 1);
      expect = left;
    } in
    if left == 0
    then record a { frags = dropped f; pools = rtk_btcoex_evt_enqueue hci back (at + 1) a.pools }
    else record a { frags = f }

unfoldable pub feed : Hci → List ℕ → Assembly → Assembly
unfolding step_byte
feed hci [] a = a
feed hci (b ∷ bs) a = feed hci bs (step_byte hci b a)

pub feed-append :
    (hci : Hci) (xs ys : List ℕ) (a : Assembly)
    → feed hci (xs ++ ys) a ≡ feed hci ys (feed hci xs a)
unfolding feed
feed-append hci [] ys a = refl
feed-append hci (x ∷ xs) ys a = feed-append hci xs ys (step_byte hci x a)

pub place-lt :
    (t : Option ℕ) (e x : ℕ)
    → Within t e x
    → (place t e + behind t x ≤ 256)
      × (place t e < 1 → behind t x ≡ 1)
      × (place t e ≡ 1 → behind t x ≡ 0)
place-lt none e x w = (omega arith, λ h. refl, λ h. omega arith)
place-lt (some at) e x w = (omega arith, λ h. omega arith, λ h. omega arith)

pub step_byte-Valid :
    (hci : Hci) (b : ℕ) (a : Assembly) → b < 256 → Valid a.frags → Valid (step_byte hci b a).frags
unfolding step_byte
step_byte-Valid hci b a small v =
    let at = place a.frags.tbuff a.frags.elen in
    let back = set a.frags.back_buff at b in
    let room : length back ≡ 260 = length-set a.frags.back_buff at b ∙ v.room in
    let bytes : All IsByte back = All-set IsByte a.frags.back_buff at b v.bytes small in
    let plen : get_or back 1 0 < 256 = get_or-All IsByte back 1 0 (omega arith) bytes in
    let near = place-lt a.frags.tbuff a.frags.elen a.frags.expect v.within in
    let left = if at == 1 then get_or back 1 0 else behind a.frags.tbuff a.frags.expect in
    if_cases (λ (r : Assembly). Valid r.frags) (left == 0) _ _
      (λ _. record { room = room; bytes = bytes; within = tt })
      (λ e. record {
        room = room;
        bytes = bytes;
        within =
            (refl, ground (arith, near), ground (arith, near, plen), λ h. ground (arith, near));
      })

pub step_byte-outside : (hci : Hci) (b : ℕ) (a : Assembly) → (step_byte hci b a).outside ≡ a.outside
unfolding step_byte
step_byte-outside hci b a = ground arith

pub feed-Valid :
    (hci : Hci) (bs : List ℕ) (a : Assembly)
    → All IsByte bs
    → Valid a.frags
    → Valid (feed hci bs a).frags × ((feed hci bs a).outside ≡ a.outside)
unfolding feed
feed-Valid hci [] a bytes v = (v, refl)
feed-Valid hci (b ∷ bs) a bytes v =
    let ih = feed-Valid hci bs (step_byte hci b a) bytes.1 (step_byte-Valid hci b a bytes.0 v) in
    (ih.0, ih.1 ∙ step_byte-outside hci b a)
