-- ===== src/Coex/Parser/Pieces.antt =====
-- The loop of `rtk_btcoex_parse_event` in rtk_coex.c copies pieces; each round is a number of bytes
-- of the machine.
use br_external.Prelude.{
  ℕ, zero, suc, ◌+◌, ◌-◌, ◌%◌, ◌≤◌, ◌<◌, ◌≡◌, refl, ap, arith, subst, true, false, if◌then◌else◌,
  ◌==◌, ltb, leb, some, List, [], ◌∷◌, ◌++◌, length, length-take, take, drop, set, get_or, All,
  All-set, get_or-All, Bool-cases, Option-cases, inl, inr,
}
use br_external.Coex.State.{Frags}
use br_external.Coex.Hci.{Hci, HasSizes}
use br_external.Coex.Pools.{rtk_btcoex_evt_enqueue}
use br_external.Coex.Parser.{
  Assembly, start_of_frame, min_of, take_in, dropped, header_done, frame_done, copied, round,
  rounds,
}
use br_external.Coex.Parser.Bytes.{
  IsByte, Within, Valid, place, behind, step_byte, feed, place-lt, step_byte-Valid,
}

-- A copy of a piece is a copy of its first byte, and then of the others.
unfoldable pub copy_at : List ℕ → ℕ → List ℕ → List ℕ
copy_at back at piece = take at back ++ (piece ++ drop (at + length piece) back)

pub copy_at-one :
    (back : List ℕ) (at b : ℕ) → at < length back → copy_at back at (b ∷ []) ≡ set back at b
unfolding copy_at
copy_at-one [] at b h = absurd (omega arith)
copy_at-one (x ∷ xs) zero b h = refl
copy_at-one (x ∷ xs) (suc at) b h =
    let e : suc at + 1 ≡ suc (at + 1) = omega arith in
    rw e (ap (λ t. x ∷ t) (copy_at-one xs at b (omega arith)))

pub copy_at-cons :
    (back : List ℕ) (at b : ℕ) (piece : List ℕ)
    → at + suc (length piece) ≤ length back
    → copy_at (set back at b) (at + 1) piece ≡ copy_at back at (b ∷ piece)
unfolding copy_at
copy_at-cons [] at b piece h = absurd (omega arith)
copy_at-cons (x ∷ xs) zero b piece h =
    let e : 1 + length piece ≡ suc (length piece) = omega arith in
    let e' : 0 + suc (length piece) ≡ suc (length piece) = omega arith in rw (e, e')
copy_at-cons (x ∷ xs) (suc at) b piece h =
    let n = length piece in
    let e : suc at + 1 ≡ suc (at + 1) = omega arith in
    let e' : suc (at + 1) + n ≡ suc (at + 1 + n) = omega arith in
    let e'' : suc at + suc n ≡ suc (at + suc n) = omega arith in
    rw (e, e', e'') (ap (λ t. x ∷ t) (copy_at-cons xs at b piece (omega arith)))

-- A frame that has begun: at the place `p`, with `q` bytes behind the next one.
abbrev begun : ℕ → ℕ → Frags → Frags
begun p q f = record f { tbuff = some p; elen = p; expect = q + 1 }

start_of_frame-begun :
    (hci : Hci) (f : Frags)
    → HasSizes hci
    → Valid f
    → start_of_frame hci f ≡ begun (place f.tbuff f.elen) (behind f.tbuff f.expect) f
unfolding start_of_frame
start_of_frame-begun hci f z v = elim (Option-cases f.tbuff) [
  | inl e ↦ ground (arith, e, z.header)
  | inr (at, e) ↦
      let w : Within (some at) f.elen f.expect = subst (λ t. Within t f.elen f.expect) e v.within in
      ground (arith, e, w)
]

module _ (hci : Hci) (z : HasSizes hci) (a : Assembly) (p q : ℕ) (near : p + q ≤ 256)
    (second : p ≡ 1 → q ≡ 0) (room : length a.frags.back_buff ≡ 260) where
  -- One byte is copied.
  one_copied : (b : ℕ) → Assembly
  one_copied b = record a {
    frags = record a.frags {
      back_buff = set a.frags.back_buff p b;
      tbuff = some (p + 1);
      elen = p + 1;
      expect = q;
    };
  }

  take_in-one :
      (b : ℕ) → take_in hci (b ∷ []) (record a { frags = begun p q a.frags }) ≡ one_copied b
  unfolding take_in one_copied copy_at
  take_in-one b =
      let c : copy_at a.frags.back_buff p (b ∷ []) ≡ set a.frags.back_buff p b =
        copy_at-one a.frags.back_buff p b (omega arith) in
      let m : (p + 1) % 65536 ≡ p + 1 = omega arith in
      let e : q + 1 - 1 ≡ q = omega arith in
      let g : ltb hci.max_event_size (p + 1) ≡ false = ground (arith, z.largest) in
      ground (arith, c, m, e, g)

  -- What follows the copy of one byte, and `step_byte` where the next place is `p`.
  stepped : ℕ → Assembly
  stepped b =
      let back = set a.frags.back_buff p b in
      let left = if p == 1 then get_or back 1 0 else q in
      let f = record a.frags {
        back_buff = back;
        elen = p + 1;
        tbuff = some (p + 1);
        expect = left;
      } in
      if left == 0
      then record a { frags = dropped f; pools = rtk_btcoex_evt_enqueue hci back (p + 1) a.pools }
      else record a { frags = f }

  header_done-one :
      (b : ℕ)
      → get_or (set a.frags.back_buff p b) 1 0 < 256
      → header_done hci (one_copied b).frags ≡ (
        record (one_copied b).frags {
          expect = if p == 1 then get_or (set a.frags.back_buff p b) 1 0 else q;
        },
        false,
      )
  unfolding header_done one_copied
  header_done-one b small = ground (arith, z.header, z.largest)

  copied-one :
      (b : ℕ)
      → get_or (set a.frags.back_buff p b) 1 0 < 256
      → copied hci (one_copied b) ≡ (stepped b, false)
  unfolding copied frame_done stepped one_copied
  copied-one b small = rw (header_done-one b small) (ground arith)

  round-one :
      (b : ℕ) (rest : List ℕ)
      → get_or (set a.frags.back_buff p b) 1 0 < 256
      → start_of_frame hci a.frags ≡ begun p q a.frags
      → min_of (q + 1) (length (b ∷ rest)) ≡ 1
      → round hci (b ∷ rest) a ≡ (rest, false, stepped b)
  unfolding round
  round-one b rest small st one = rw (st, one, take_in-one b, copied-one b small)

  -- A piece of two bytes or more, of which the first ends no header and no frame.
  take_in-more :
      (b : ℕ) (piece : List ℕ)
      → 0 < length piece
      → length piece ≤ q
      → take_in hci piece (record a {
        frags = record a.frags {
          back_buff = set a.frags.back_buff p b;
          tbuff = some (p + 1);
          elen = p + 1;
          expect = q;
        };
      })
        ≡ take_in hci (b ∷ piece) (record a { frags = begun p q a.frags })
  unfolding take_in copy_at
  take_in-more b piece some_left fits =
      let n = length piece in
      let c : copy_at (set a.frags.back_buff p b) (p + 1) piece
          ≡ copy_at a.frags.back_buff p (b ∷ piece) =
        copy_at-cons a.frags.back_buff p b piece (omega arith) in
      let e : (p + suc n) % 65536 ≡ (p + 1 + n) % 65536 = omega arith in
      let e' : q + 1 - suc n ≡ q - n = omega arith in
      let e'' : p + suc n ≡ p + 1 + n = omega arith in ground (arith, c, e, e', e'')

  stepped-more :
      (b : ℕ)
      → 0 < q
      → stepped b ≡ record a {
        frags = record a.frags {
          back_buff = set a.frags.back_buff p b;
          tbuff = some (p + 1);
          elen = p + 1;
          expect = q;
        };
      }
  unfolding stepped
  stepped-more b more = ground (arith, second)

  round-more :
      (b : ℕ) (rest : List ℕ)
      → start_of_frame hci a.frags ≡ begun p q a.frags
      → 0 < q
      → 0 < length rest
      → round hci (b ∷ rest) a ≡ round hci rest (stepped b)
  unfolding round start_of_frame
  round-more b rest st more left =
      let len = min_of q (length rest) in
      let e : min_of (q + 1) (suc (length rest)) ≡ suc len = ground arith in
      let n : length (take len rest) ≡ len = length-take len rest (ground arith) in
      let m = take_in-more b (take len rest) (ground (arith, n)) (ground (arith, n)) in
      rw (st, e, stepped-more b more, m)

stepped-step_byte :
    (hci : Hci) (z : HasSizes hci) (a : Assembly)
    (near : place a.frags.tbuff a.frags.elen + behind a.frags.tbuff a.frags.expect ≤ 256)
    (second : place a.frags.tbuff a.frags.elen ≡ 1 → behind a.frags.tbuff a.frags.expect ≡ 0)
    (room : length a.frags.back_buff ≡ 260) (b : ℕ)
    → stepped hci z a _ _ near second room b ≡ step_byte hci b a
unfolding stepped step_byte
stepped-step_byte hci z a near second room b = refl

-- The loop is the machine for bytes, and the fuel suffices.
pub rounds-feed :
    (hci : Hci) (buffer : List ℕ) (fuel : ℕ) (a : Assembly)
    → HasSizes hci
    → All IsByte buffer
    → Valid a.frags
    → length buffer ≤ fuel
    → rounds fuel hci buffer a ≡ (true, feed hci buffer a)
unfolding rounds feed
rounds-feed hci [] zero a z bytes v enough = refl
rounds-feed hci [] (suc fuel) a z bytes v enough = refl
rounds-feed hci (b ∷ rest) zero a z bytes v enough = absurd (omega arith)
rounds-feed hci (b ∷ rest) (suc fuel) a z bytes v enough =
    let p = place a.frags.tbuff a.frags.elen in
    let q = behind a.frags.tbuff a.frags.expect in
    let near = place-lt a.frags.tbuff a.frags.elen a.frags.expect v.within in
    let st = start_of_frame-begun hci a.frags z v in
    let v' = step_byte-Valid hci b a bytes.0 v in
    let plen : get_or (set a.frags.back_buff p b) 1 0 < 256 =
      get_or-All IsByte (set a.frags.back_buff p b) 1 0 (omega arith)
        (All-set IsByte a.frags.back_buff p b v.bytes bytes.0) in
    let same = stepped-step_byte hci z a near.0 near.2 v.room b in
    let full : (suc (length rest) == 0) ≡ false = ground arith in
    elim (Bool-cases (leb (min_of (q + 1) (suc (length rest))) 1)) [
      | inl one ↦
          let r = round-one hci z a p q near.0 near.2 v.room b rest plen st (ground arith) in
          rw (full, r, same) (rounds-feed hci rest fuel _ z bytes.1 v' (omega arith))
      | inr more ↦
          let left : 0 < length rest = ground arith in
          let r = round-more hci z a p q near.0 near.2 v.room b rest st (ground arith) left in
          let ih = rounds-feed hci rest (suc fuel) (step_byte hci b a) z bytes.1 v' (omega arith) in
          let full' : (length rest == 0) ≡ false = ground arith in
          rw (full, r, same) (rw full' at ih)
    ]
