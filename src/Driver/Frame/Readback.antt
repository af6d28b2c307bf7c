-- ===== src/Driver/Frame/Readback.antt =====
-- What stands in a frame of hci_rtk_h5.c, read without the functions that make it.
use br_external.Prelude.{
  ℕ, ◌+◌, ◌*◌, ◌/◌, ◌%◌, ◌<◌, ◌≡◌, ◌^◌, refl, sym, ap, ◌∙◌, subst, arith, bit_or, Bool, true, false,
  ◌&&◌, if◌then◌else◌, ◌==◌, ==_iff, if_cases, all_below, all_below_sound, some, List, [], ◌∷◌,
  ◌++◌, append_assoc, length, take, drop, get_or, take-length_append,
}
use br_external.Prelude.Bits.{bit_or_fields}
use br_external.H5.Slip.{slip_bytes}
use br_external.Driver.State.{
  H5Struct, PktType, acldata, command, event, scodata, le, ack, vdrspec, unknown_type,
}
use br_external.Driver.Frame.{channel, hdr, slip_all, crc_tail, frame}

-- A byte behind the escape 0xdb.
abbrev undone : ℕ → ℕ
undone c = if c == 0xdc then 0xc0 else if c == 0xdd then 0xdb else if c == 0xde then 0x11 else 0x13

-- The bytes up to a delimiter, with their escapes undone.
unfoldable pub unslip : Bool → List ℕ → List ℕ
unslip escaped [] = []
unslip escaped (c ∷ cs) =
    let plain = unslip false cs in
    let behind = unslip true cs in
    if escaped
    then undone c ∷ plain
    else if c == 0xc0
    then []
    else if c == 0xdb
    then behind
    else c ∷ plain

-- What stands in a frame behind its first delimiter.
abbrev pub received : List ℕ → List ℕ
received [] = []
received (delimiter ∷ bytes) = unslip false bytes

unslip-slip_bytes_append :
    (c : ℕ) (rest : List ℕ) → unslip false (slip_bytes c ++ rest) ≡ c ∷ unslip false rest
unfolding slip_bytes unslip
unslip-slip_bytes_append c rest =
    let P = λ (l : List ℕ). unslip false (l ++ rest) ≡ c ∷ unslip false rest in
    let same = λ (d : ℕ) (e : (c == d) ≡ true).
      ap (λ (x : ℕ). x ∷ unslip false rest) (sym ((==_iff c d).0 e)) in
    if_cases P (c == 0xc0) _ _ (λ e. same 0xc0 e)
      λ a.
        if_cases P (c == 0xdb) _ _ (λ e. same 0xdb e)
          λ b.
            if_cases P (c == 0x11) _ _ (λ e. same 0x11 e)
              λ _. if_cases P (c == 0x13) _ _ (λ e. same 0x13 e) (λ _. rw (a, b) refl)

unslip-slip_all : (bytes : List ℕ) → unslip false (slip_all bytes ++ 0xc0 ∷ []) ≡ bytes
unfolding slip_all
unslip-slip_all [] = unfold unslip in refl
unslip-slip_all (c ∷ cs) =
    ap (unslip false) (append_assoc (slip_bytes c) (slip_all cs) (0xc0 ∷ []))
    ∙ unslip-slip_bytes_append c (slip_all cs ++ 0xc0 ∷ [])
    ∙ ap (λ l. c ∷ l) (unslip-slip_all cs)

-- The first header byte of a reliable packet, over the numbers that it is made of.
abbrev first_byte : ℕ → ℕ → Bool → ℕ
first_byte rxseq txseq crc =
    let b = bit_or (rxseq * 8 % 256) (0x80 + txseq) % 256 in if crc then bit_or b 0x40 else b

abbrev pub bit_of : Bool → ℕ
bit_of true = 1
bit_of false = 0

abbrev fits : Bool → ℕ → ℕ → Bool
fits crc rxseq txseq =
    let h = first_byte rxseq txseq crc in
    h % 8 == txseq && (h / 8 % 8 == rxseq && (h / 64 % 2 == bit_of crc && h / 128 == 1))

table : (crc : Bool) → all_below 8 (λ rxseq. all_below 8 (λ txseq. fits crc rxseq txseq)) ≡ true
unfolding all_below
table true = refl
table false = refl

fits_all : (crc : Bool) (rxseq txseq : ℕ) → rxseq < 8 → txseq < 8 → fits crc rxseq txseq ≡ true
fits_all crc rxseq txseq hr ht =
    all_below_sound 8 (λ t. fits crc rxseq t) txseq
      (all_below_sound 8 (λ r. all_below 8 (λ t. fits crc r t)) rxseq (table crc) hr) ht

both : (a b : Bool) → (a && b) ≡ true → (a ≡ true) × (b ≡ true)
both a b h = ground arith

-- The channels of the packets that are sent reliably.
abbrev pub reliable_channel : PktType → ℕ
reliable_channel command = 1
reliable_channel acldata = 2
reliable_channel event = 4
reliable_channel _ = 0

-- A reliable packet as a receiver reads it: the numbers, the flags and the fields of its header, the
-- header's checksum, and the payload.
pub record Reads (p : List ℕ) (txseq rxseq : ℕ) (crc : Bool) (kind : PktType) (bytes : List ℕ)
    : Type 0 where
  pub seq : get_or p 0 0 % 8 ≡ txseq
  pub acknowledged : get_or p 0 0 / 8 % 8 ≡ rxseq
  pub crc_bit : get_or p 0 0 / 64 % 2 ≡ bit_of crc
  pub reliable : get_or p 0 0 / 128 ≡ 1
  pub chan : get_or p 1 0 % 16 ≡ reliable_channel kind
  pub len : get_or p 1 0 / 16 + get_or p 2 0 * 16 ≡ length bytes % 4096
  pub checksum : (get_or p 0 0 + get_or p 1 0 + get_or p 2 0 + get_or p 3 0) % 256 ≡ 255
  pub payload : take (length bytes) (drop 4 p) ≡ bytes

the_channel :
    (kind : PktType) (chan : ℕ)
    → channel kind ≡ some (chan, true)
    → (chan ≡ reliable_channel kind) × (chan < 16)
unfolding channel
the_channel acldata chan e = ground (arith, e)
the_channel command chan e = ground (arith, e)
the_channel event chan e = ground (arith, e)
the_channel scodata chan e = ground (arith, e)
the_channel le chan e = ground (arith, e)
the_channel ack chan e = ground (arith, e)
the_channel vdrspec chan e = ground (arith, e)
the_channel (unknown_type n) chan e = ground (arith, e)

second_byte : (len chan : ℕ) → chan < 16 → bit_or (len * 16 % 256) chan % 256 ≡ len % 16 * 16 + chan
second_byte len chan h =
    let low : len * 16 % 256 ≡ len % 16 * 2 ^ 4 = omega arith in
    ap (λ (x : ℕ). bit_or x chan % 256) low
    ∙ ap (λ (x : ℕ). x % 256) (bit_or_fields 4 (len % 16) chan h)
    ∙ omega arith

pub frame-Reads :
    (b : ℕ → ℕ) (h5 : H5Struct) (kind : PktType) (chan : ℕ) (bytes : List ℕ)
    → h5.msgq_txseq < 8
    → h5.rxseq_txack < 8
    → channel kind ≡ some (chan, true)
    → Reads
        (received (frame b h5 chan true bytes))
        h5.msgq_txseq
        h5.rxseq_txack
        h5.use_crc
        kind
        bytes
unfolding frame hdr
frame-Reads b h5 kind chan bytes ht hr known =
    let c = the_channel kind chan known in
    let body = hdr h5 chan true (length bytes) ++ bytes in
    let crc = crc_tail b h5.use_crc body in
    let f = both _ _ (fits_all h5.use_crc h5.rxseq_txack h5.msgq_txseq hr ht) in
    let g = both _ _ f.1 in
    let k = both _ _ g.1 in
    let two = second_byte (length bytes) chan c.1 in
    subst (λ p. Reads p h5.msgq_txseq h5.rxseq_txack h5.use_crc kind bytes)
      (sym (unslip-slip_all (body ++ crc)))
      (record {
        seq = (==_iff _ _).0 f.0;
        acknowledged = (==_iff _ _).0 g.0;
        crc_bit = (==_iff _ _).0 k.0;
        reliable = (==_iff _ _).0 k.1;
        chan = omega (arith, two, c.0, c.1);
        len = omega (arith, two, c.1);
        checksum = omega arith;
        payload = take-length_append bytes crc;
      })
