-- ===== src/H5/Prepare/Encoding.antt =====
-- What `h5_prepare_pkt` writes: the delimiters and, between them, the escaped header, payload and CRC.
use br_external.Prelude.{
  ℕ, ◌+◌, ◌*◌, ◌≤◌, ◌≡◌, refl, ap, sym, ◌∙◌, arith, Bool, true, false, if◌then◌else◌, List, [], ◌∷◌,
  ◌++◌, length, length-append, append-nil, append_assoc, some, Outcome, ok,
}
use br_external.H5.Crc.{h5_crc_update, h5_crc_init}
use br_external.H5.Skb.{Skb, live, malloc, fresh, contents}
use br_external.H5.Skb.Laws.{
  IsBlock, Appended, appended, append-ok, append-Appended, fresh-IsBlock, fresh_sizes,
  contents-fresh,
}
use br_external.H5.Slip.{slip_bytes, h5_slip_one_byte, h5_slip_msgdelim}
use br_external.H5.State.{H5, Rtb}
use br_external.H5.Prepare.{
  put_bytes, put_crc, crc_bytes, encode, header, header_state, pkt_rel, is_set, h5_prepare_pkt,
}

unfoldable pub slip_all : List ℕ → List ℕ
slip_all [] = []
slip_all (c ∷ cs) = slip_bytes c ++ slip_all cs

-- The register after bytes that are counted in where `crc` holds.
unfoldable pub crc_run : Bool → ℕ → List ℕ → ℕ
crc_run crc reg [] = reg
crc_run crc reg (c ∷ cs) = crc_run crc (if crc then h5_crc_update reg c else reg) cs

-- The CRC field of a packet.
unfoldable pub crc_field : Bool → ℕ → List ℕ
crc_field true reg = crc_bytes reg
crc_field false reg = []

-- The bytes between the delimiters, before they are escaped.
unfoldable pub body : Bool → List ℕ → List ℕ → List ℕ
unfolding crc_field crc_run
body crc hdr payload =
    hdr ++ (payload ++ crc_field crc (crc_run crc (crc_run crc h5_crc_init hdr) payload))

unfoldable pub frame : List ℕ → List ℕ
unfolding slip_all
frame bytes = 0xc0 ∷ slip_all bytes ++ 0xc0 ∷ []

length-slip_bytes : (c : ℕ) → length (slip_bytes c) ≤ 2
unfolding slip_bytes
length-slip_bytes c = ground arith

pub slip_all-append : (xs ys : List ℕ) → slip_all (xs ++ ys) ≡ slip_all xs ++ slip_all ys
unfolding slip_all
slip_all-append [] ys = refl
slip_all-append (x ∷ xs) ys = rw (slip_all-append xs ys, append_assoc)

pub length-slip_all : (cs : List ℕ) → length (slip_all cs) ≤ 2 * length cs
unfolding slip_all
length-slip_all [] = omega arith
length-slip_all (c ∷ cs) =
    omega
      (arith, length-append (slip_bytes c) (slip_all cs), length-slip_bytes c, length-slip_all cs)

-- A buffer that was reached from `s` by appending `bytes`.
abbrev Reaches : Skb → List ℕ → Outcome Skb → Type 0
Reaches s bytes r = (t : Skb) × (r ≡ ok t) × Appended s bytes t

pub Appended-refl : (s : Skb) → IsBlock s → Appended s [] s
Appended-refl s v = record {
  valid = v;
  max_same = refl;
  off_same = refl;
  longer = omega arith;
  holds = sym (append-nil _);
}

pub Appended-trans :
    {s t u : Skb} (xs ys : List ℕ) → Appended s xs t → Appended t ys u → Appended s (xs ++ ys) u
Appended-trans xs ys a b = record {
  valid = b.valid;
  max_same = b.max_same ∙ a.max_same;
  off_same = b.off_same ∙ a.off_same;
  longer = omega (arith, a.longer, b.longer, length-append xs ys);
  holds = rw (b.holds, a.holds, append_assoc);
}

put_bytes-Reaches :
    (crc : Bool) (s : Skb) (reg : ℕ) (cs : List ℕ)
    → IsBlock s
    → s.off + s.data_len + 2 * length cs ≤ s.max_len
    → (t : Skb) × (put_bytes crc s reg cs ≡ ok (t, crc_run crc reg cs)) × Appended s (slip_all cs) t
unfolding put_bytes crc_run slip_all h5_slip_one_byte
put_bytes-Reaches crc s reg [] v room = (s, refl, Appended-refl s v)
put_bytes-Reaches crc s reg (c ∷ cs) v room =
    let small : s.off + s.data_len + length (slip_bytes c) ≤ s.max_len =
      omega (arith, length-slip_bytes c) in
    let first = append-Appended s (slip_bytes c) v small in
    let reg' = if crc then h5_crc_update reg c else reg in
    let (t, e, rest) =
      put_bytes-Reaches crc (appended s (slip_bytes c)) reg' cs first.valid
        (omega (arith, length-slip_bytes c)) in
    (
      t,
      rw (append-ok s (slip_bytes c) v small, e),
      Appended-trans (slip_bytes c) (slip_all cs) first rest,
    )

put_crc-Reaches :
    (crc : Bool) (s : Skb) (reg : ℕ)
    → IsBlock s
    → s.off + s.data_len + 4 ≤ s.max_len
    → Reaches s (slip_all (crc_field crc reg)) (put_crc crc s reg)
unfolding put_crc crc_field
put_crc-Reaches false s reg v room = (s, refl, unfold slip_all in Appended-refl s v)
put_crc-Reaches true s reg v room =
    let (t, e, a) = put_bytes-Reaches false s 0 (crc_bytes reg) v (omega arith) in (t, rw e, a)

pub length-crc_field : (crc : Bool) (reg : ℕ) → length (crc_field crc reg) ≤ 2
unfolding crc_field
length-crc_field true reg = omega arith
length-crc_field false reg = omega arith

pub frame_parts :
    (crc : Bool) (hdr payload : List ℕ)
    → frame (body crc hdr payload)
      ≡ 0xc0 ∷ []
        ++ (slip_all hdr
            ++ (slip_all payload
                ++ (slip_all (crc_field crc (crc_run crc (crc_run crc h5_crc_init hdr) payload))
                    ++ 0xc0 ∷ [])))
unfolding frame body
frame_parts crc hdr payload = simp (slip_all-append, append_assoc)

-- Into a buffer with two bytes for each byte of the packet, and two more, the encoder writes the
-- frame of header, payload and CRC, and never meets the end of the buffer.
pub encode-frame :
    (s : Skb) (hdr payload : List ℕ) (crc : Bool)
    → IsBlock s
    → s.off + s.data_len + (2 * length hdr + 2 * length payload + 6) ≤ s.max_len
    → Reaches s (frame (body crc hdr payload)) (encode s hdr payload crc)
unfolding encode h5_slip_msgdelim
encode-frame s hdr payload crc v room =
    let delim : List ℕ = 0xc0 ∷ [] in
    let a = appended s delim in
    let va = append-Appended s delim v (omega arith) in
    let (b, eb, vb) = put_bytes-Reaches crc a h5_crc_init hdr va.valid (omega arith) in
    let lb = length-slip_all hdr in
    let reg = crc_run crc h5_crc_init hdr in
    let (c, ec, vc) =
      put_bytes-Reaches crc b reg payload vb.valid
        (omega (arith, vb.longer, vb.max_same, vb.off_same, lb)) in
    let lc = length-slip_all payload in
    let reg' = crc_run crc reg payload in
    let (d, ed, vd) = put_crc-Reaches crc c reg' vc.valid (
      omega (
        arith, vb.longer, vb.max_same, vb.off_same, lb, vc.longer, vc.max_same, vc.off_same, lc,
      )) in
    let ld = length-slip_all (crc_field crc reg') in
    let room' : d.off + d.data_len + 1 ≤ d.max_len = omega (
      arith,
      vb.longer,
      vb.max_same,
      vb.off_same,
      lb,
      vc.longer,
      vc.max_same,
      vc.off_same,
      lc,
      vd.longer,
      vd.max_same,
      vd.off_same,
      ld,
      length-crc_field crc reg',
    ) in
    (
      appended d delim,
      rw (append-ok s delim v (omega arith), eb, ec, ed, append-ok d delim vd.valid room'),
      rw (frame_parts crc hdr payload) (
          Appended-trans delim _ va (
            Appended-trans (slip_all hdr) _ vb (
              Appended-trans (slip_all payload) _ vc (
                Appended-trans (slip_all (crc_field crc reg')) delim vd
                  (append-Appended d delim vd.valid room'))))),
    )

pub length-header :
    (h5 : H5) (rel : Bool) (len pkt_type : ℕ) → length (header h5 rel len pkt_type) ≡ 4
unfolding header
length-header h5 rel len pkt_type = refl

pub h5_prepare_pkt-frame :
    (s : Rtb) (payload : List ℕ) (pkt_type : ℕ) (rel : Bool) (heap' : List Bool)
    → pkt_rel pkt_type ≡ some rel
    → malloc s.heap ≡ (true, heap')
    → length payload ≤ 0xfff
    → (skb : Skb) × (h5_prepare_pkt s payload pkt_type
        ≡ ok (live skb, record s { h5 = header_state s.h5 rel; heap = heap' }))
      × (contents skb
          ≡ frame (body (is_set s.h5.use_crc) (header s.h5 rel (length payload) pkt_type) payload))
      × IsBlock skb
unfolding h5_prepare_pkt
h5_prepare_pkt-frame s payload pkt_type rel heap' known given short =
    let crc = is_set s.h5.use_crc in
    let hdr = header s.h5 rel (length payload) pkt_type in
    let n = (length payload + 6) * 2 + 2 in
    let (skb, e, a) =
      encode-frame (fresh n) hdr payload crc (fresh-IsBlock n (omega arith))
        (omega (arith, fresh_sizes n, length-header s.h5 rel (length payload) pkt_type)) in
    (
      skb,
      rw (known, given, e),
      a.holds ∙ ap (λ t. t ++ frame (body crc hdr payload)) (contents-fresh n),
      a.valid,
    )
