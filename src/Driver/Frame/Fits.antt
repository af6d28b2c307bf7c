-- ===== src/Driver/Frame/Fits.antt =====
-- The length of a frame in hci_rtk_h5.c, against the buffer that is allocated for it.
use br_external.Prelude.{
  ℕ, ◌*◌, ◌≤◌, ◌≡◌, arith, Bool, Option, option_cases, some, List, [], ◌∷◌, ◌++◌, length,
  length-append,
}
use br_external.H5.Slip.{slip_bytes}
use br_external.Driver.State.{H5Struct, PktType}
use br_external.Driver.Frame.{hdr, slip_all, crc_tail, frame, room, h5_prepare_pkt, channel}

length-slip_bytes : (c : ℕ) → length (slip_bytes c) ≤ 2
unfolding slip_bytes
length-slip_bytes c = ground arith

length-slip_all : (cs : List ℕ) → length (slip_all cs) ≤ 2 * length cs
unfolding slip_all
length-slip_all [] = omega arith
length-slip_all (c ∷ cs) =
    omega
      (arith, length-append (slip_bytes c) (slip_all cs), length-slip_bytes c, length-slip_all cs)

length-crc_tail :
    (bitrev16 : ℕ → ℕ) (b : Bool) (bytes : List ℕ) → length (crc_tail bitrev16 b bytes) ≤ 2
unfolding crc_tail
length-crc_tail bitrev16 b bytes = ground arith

length-frame :
    (bitrev16 : ℕ → ℕ) (h5 : H5Struct) (chan : ℕ) (rel : Bool) (bytes : List ℕ)
    → length (frame bitrev16 h5 chan rel bytes) ≤ room (length bytes)
unfolding frame hdr
length-frame bitrev16 h5 chan rel bytes =
    let body = hdr h5 chan rel (length bytes) ++ bytes in
    let tail = crc_tail bitrev16 h5.use_crc body in
    omega (
      arith,
      length-append (slip_all (body ++ tail)) (0xc0 ∷ []),
      length-slip_all (body ++ tail),
      length-append body tail,
      length-append (hdr h5 chan rel (length bytes)) bytes,
      length-crc_tail bitrev16 h5.use_crc body,
    )

-- Whatever `h5_prepare_pkt` is asked to send, and whatever `bitrev16` gives: the frame, with
-- delimiters, header, CRC and all escapes, is no longer than the buffer of (len + 6) * 2 + 2 bytes
-- that is allocated for it, so that `skb_put` has room.
pub h5_prepare_pkt-fits :
    (bitrev16 : ℕ → ℕ) (bytes : List ℕ) (t : PktType) (h5 : H5Struct) (n : List ℕ)
    → (h5_prepare_pkt bitrev16 bytes t h5).0 ≡ some n
    → length n ≤ room (length bytes)
unfolding h5_prepare_pkt
h5_prepare_pkt-fits bitrev16 bytes t h5 n e =
    option_cases
      (λ (r : Option (List ℕ) × H5Struct). (r.0 ≡ some n) → length n ≤ room (length bytes))
      (channel t) _ _ (λ _ e. absurd (ground (arith, e)))
      (λ c _ e. ground (arith, e, length-frame bitrev16 h5 c.0 c.1 bytes)) e
