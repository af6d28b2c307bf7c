-- ===== src/Coex/Parser.antt =====
-- How rtk_coex.c puts HCI events together: `rtk_btcoex_parse_event`.
pub mod Bytes
pub mod Pieces
pub mod Whole
pub mod Delivery
use br_external.Prelude.{
  ℕ, zero, suc, ◌+◌, ◌-◌, ◌*◌, ◌%◌, Bool, true, false, not, ◌&&◌, ◌||◌, if◌then◌else◌, ltb, ◌==◌,
  Option, none, some, List, [], ◌∷◌, ◌++◌, length, get_or, take, drop,
}
use br_external.Coex.State.{Coex, Pools, Frags}
use br_external.Coex.Hci.{Hci}
use br_external.Coex.Pools.{rtk_btcoex_evt_enqueue}

-- What the loop works on: the pieces, with the local `tbuff` as theirs, the pools, and whether
-- anything was written outside `back_buff`.
pub record Assembly : Type 0 where
  pub frags : Frags
  pub pools : Pools
  pub outside : Bool

-- Where a frame starts, `tbuff` goes to the start of `back_buff`, and the header is expected.
unfoldable pub start_of_frame : Hci → Frags → Frags
start_of_frame hci f = elim f.tbuff [
  | none ↦ record f { tbuff = some 0; elen = 0; expect = hci.event_hdr_size }
  | some at ↦ f
]

abbrev pub min_of : ℕ → ℕ → ℕ
min_of a b = if ltb a b then a else b

abbrev pub place_of : Option ℕ → ℕ
place_of none = 0
place_of (some at) = at

-- `memcpy(tbuff, buffer, len)`, and the counters
unfoldable pub take_in : Hci → List ℕ → Assembly → Assembly
take_in hci piece a =
    let f = a.frags in
    let at = place_of f.tbuff in
    let n = length piece in
    record a {
      frags = record f {
        back_buff = take at f.back_buff ++ (piece ++ drop (at + n) f.back_buff);
        tbuff = some (at + n);
        elen = (f.elen + n) % 65536;
        expect = f.expect - n;
      };
      outside = a.outside || ltb hci.max_event_size (at + n);
    }

abbrev pub dropped : Frags → Frags
dropped f = record f { tbuff = none; elen = 0 }

-- Behind the header: how many bytes of parameters there are. True is the `break`, where the room
-- is not enough.
unfoldable pub header_done : Hci → Frags → Frags × Bool
header_done hci f =
    let plen = get_or f.back_buff 1 0 in
    let f' = record f { expect = plen } in
    if not (f.elen == hci.event_hdr_size)
    then (f, false)
    else if ltb (hci.max_event_size - f.elen) plen
    then (dropped f', true)
    else (f', false)

-- A complete frame goes to the queue.
unfoldable pub frame_done : Hci → Assembly → Assembly
frame_done hci a =
    if a.frags.expect == 0
    then record a {
      frags = dropped a.frags;
      pools = rtk_btcoex_evt_enqueue hci a.frags.back_buff a.frags.elen a.pools;
    }
    else a

-- What follows the copy; true is the `break`.
unfoldable pub copied : Hci → Assembly → Assembly × Bool
copied hci a =
    let (f, stop) = header_done hci a.frags in
    let a' = record a { frags = f } in (if stop then a' else frame_done hci a', stop)

-- One round: what is left of the buffer, whether the loop breaks, and the state.
unfoldable pub round : Hci → List ℕ → Assembly → List ℕ × Bool × Assembly
round hci buffer a =
    let a1 = record a { frags = start_of_frame hci a.frags } in
    let len = min_of a1.frags.expect (length buffer) in
    let a2 = take_in hci (take len buffer) a1 in
    let (a3, stop) = copied hci a2 in (drop len buffer, stop, a3)

-- `while (count)`, on fuel; false is fuel that did not suffice.
unfoldable pub rounds : ℕ → Hci → List ℕ → Assembly → Bool × Assembly
rounds zero hci buffer a = (length buffer == 0, a)
rounds (suc fuel) hci buffer a =
    let (rest, stop, a') = round hci buffer a in
    let next = rounds fuel hci rest a' in
    if length buffer == 0 then (true, a) else if stop then (true, a') else next

abbrev pub assembly : Coex → Assembly
assembly s = record { frags = s.frags; pools = s.pools; outside = s.outside }

-- Every round but one for a frame that is complete already uses a byte up.
unfoldable pub rtk_btcoex_parse_event : Hci → List ℕ → Coex → Bool × Coex
rtk_btcoex_parse_event hci buffer s =
    let (ended, a) = rounds (2 * length buffer) hci buffer (assembly s) in
    if s.running
    then (ended, record s { frags = a.frags; pools = a.pools; outside = a.outside })
    else (true, s)
