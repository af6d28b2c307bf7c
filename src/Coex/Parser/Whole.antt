-- ===== src/Coex/Parser/Whole.antt =====
-- `rtk_btcoex_parse_event` of rtk_coex.c as a whole.
use br_external.Prelude.{ℕ, ◌*◌, ◌≡◌, arith, true, List, ◌++◌, length, All, All-append}
use br_external.Coex.State.{Coex}
use br_external.Coex.Hci.{Hci, HasSizes}
use br_external.Coex.Parser.{Assembly, assembly, rtk_btcoex_parse_event}
use br_external.Coex.Parser.Bytes.{IsByte, Valid, feed, feed-append, feed-Valid}
use br_external.Coex.Parser.Pieces.{rounds-feed}

abbrev pub stored_in : Assembly → Coex → Coex
stored_in a s = record s { frags = a.frags; pools = a.pools; outside = a.outside }

-- While coexistence is open (`running`), where the sizes are those of the standard, the buffer's
-- elements are bytes and the pieces kept are valid: `rtk_btcoex_parse_event` copies pieces as long
-- as it can, and does just what a machine does that takes one byte after the other, counts down
-- what the second byte of a frame said, and queues the frame when nothing is left. Its loop ends;
-- nothing is written outside `back_buff`; and the pieces kept are valid again.
pub rtk_btcoex_parse_event-feed :
    (hci : Hci) (buffer : List ℕ) (s : Coex)
    → HasSizes hci
    → All IsByte buffer
    → Valid s.frags
    → s.running ≡ true
    → (rtk_btcoex_parse_event hci buffer s ≡ (true, stored_in (feed hci buffer (assembly s)) s))
      × ((rtk_btcoex_parse_event hci buffer s).1.outside ≡ s.outside)
      × Valid (rtk_btcoex_parse_event hci buffer s).1.frags
unfolding rtk_btcoex_parse_event
rtk_btcoex_parse_event-feed hci buffer s z bytes v on =
    let r = rounds-feed hci buffer (2 * length buffer) (assembly s) z bytes v (omega arith) in
    let f = feed-Valid hci buffer (assembly s) bytes v in
    (rw (r, on), rw (r, on) f.1, rw (r, on) f.0)

-- Bytes that come in pieces: two calls are one call with both pieces, wherever an event is cut.
pub rtk_btcoex_parse_event-append :
    (hci : Hci) (xs ys : List ℕ) (s : Coex)
    → HasSizes hci
    → All IsByte xs
    → All IsByte ys
    → Valid s.frags
    → s.running ≡ true
    → rtk_btcoex_parse_event hci ys (rtk_btcoex_parse_event hci xs s).1
      ≡ rtk_btcoex_parse_event hci (xs ++ ys) s
rtk_btcoex_parse_event-append hci xs ys s z hx hy v on =
    let first = rtk_btcoex_parse_event-feed hci xs s z hx v on in
    let f = feed-Valid hci xs (assembly s) hx v in
    let t = stored_in (feed hci xs (assembly s)) s in
    let second = rtk_btcoex_parse_event-feed hci ys t z hy f.0 on in
    let both =
      rtk_btcoex_parse_event-feed hci (xs ++ ys) s z (All-append IsByte xs ys hx hy) v on in
    rw (first.0, second.0, both.0, feed-append hci xs ys (assembly s))
