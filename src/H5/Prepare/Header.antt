-- ===== src/H5/Prepare/Header.antt =====
-- The four header bytes that `h5_prepare_pkt` makes, read by the receiver's macros.
use br_external.Prelude.{
  ℕ, ◌+◌, ◌*◌, ◌/◌, ◌%◌, ◌≤◌, ◌<◌, ◌≡◌, ◌^◌, refl, ap, ◌∙◌, arith, bit_and, bit_or, Bool, true,
  false, ◌&&◌, if◌then◌else◌, ◌==◌, ==_iff, all_below, all_below_sound, get_or,
}
use br_external.Prelude.Bits.{bit_and_255, bit_and_15, bit_or_fields}
use br_external.H5.Frame.{h5_hdr_seq, h5_hdr_ack, h5_hdr_reliable, h5_hdr_pkt_type}
use br_external.H5.State.{H5}
use br_external.H5.Prepare.{header, header0, u8, is_set}

-- The first byte, over the numbers that it is made of.
abbrev first_byte : ℕ → ℕ → Bool → Bool → ℕ
first_byte ack seq rel crc =
    let a = u8 (ack * 8) in
    let b = if rel then u8 (bit_or a (0x80 + seq)) else a in if crc then bit_or b 0x40 else b

abbrev pub bit_of : Bool → ℕ
bit_of true = 1
bit_of false = 0

abbrev fits : Bool → Bool → ℕ → ℕ → Bool
fits rel crc ack seq =
    let h = first_byte ack seq rel crc in
    h5_hdr_ack h == ack
    && (h5_hdr_reliable h == bit_of rel
        && (bit_and h 0x80 == bit_of rel * 128
            && (bit_and h 0x40 == bit_of crc * 64 && h5_hdr_seq h == bit_of rel * seq)))

table : (rel crc : Bool) → all_below 8 (λ ack. all_below 8 (λ seq. fits rel crc ack seq)) ≡ true
unfolding all_below
table true true = refl
table true false = refl
table false true = refl
table false false = refl

fits_all : (rel crc : Bool) (ack seq : ℕ) → ack < 8 → seq < 8 → fits rel crc ack seq ≡ true
fits_all rel crc ack seq ha hs =
    all_below_sound 8 (λ seq. fits rel crc ack seq) seq
      (all_below_sound 8 (λ ack. all_below 8 (λ seq. fits rel crc ack seq)) ack (table rel crc) ha)
      hs

both : (a b : Bool) → (a && b) ≡ true → (a ≡ true) × (b ≡ true)
both a b h = ground arith

-- What the receiver reads in the first byte.
pub record FirstByte (h5 : H5) (rel : Bool) (h : ℕ) : Type 0 where
  pub ack : h5_hdr_ack h ≡ h5.rxseq_txack
  pub reliable : h5_hdr_reliable h ≡ bit_of rel
  pub reliable_bit : bit_and h 0x80 ≡ bit_of rel * 128
  pub crc_bit : bit_and h 0x40 ≡ bit_of (is_set h5.use_crc) * 64
  pub seq : h5_hdr_seq h ≡ bit_of rel * h5.msgq_txseq

-- From the first header byte that the sender makes, with sequence numbers below 8, the receiver's
-- macros read the acknowledgement number, the reliable bit, the CRC bit and, in a reliable packet,
-- the sequence number that the sender put there; in an unreliable packet the number read is 0.
pub header0-FirstByte :
    (h5 : H5) (rel : Bool)
    → h5.rxseq_txack < 8
    → h5.msgq_txseq < 8
    → FirstByte h5 rel (header0 h5 rel)
unfolding header0
header0-FirstByte h5 rel ha hs =
    let h = first_byte h5.rxseq_txack h5.msgq_txseq rel (is_set h5.use_crc) in
    let p =
      both (h5_hdr_ack h == h5.rxseq_txack) _
        (fits_all rel (is_set h5.use_crc) h5.rxseq_txack h5.msgq_txseq ha hs) in
    let q = both (h5_hdr_reliable h == bit_of rel) _ p.1 in
    let r = both (bit_and h 0x80 == bit_of rel * 128) _ q.1 in
    let t = both (bit_and h 0x40 == bit_of (is_set h5.use_crc) * 64) _ r.1 in
    record {
      ack = (==_iff _ _).0 p.0;
      reliable = (==_iff _ _).0 q.0;
      reliable_bit = (==_iff _ _).0 r.0;
      crc_bit = (==_iff _ _).0 t.0;
      seq = (==_iff _ _).0 t.1;
    }

-- A byte of the header.
abbrev pub header_byte : ℕ → H5 → Bool → ℕ → ℕ → ℕ
header_byte i h5 rel len pkt_type = get_or (header h5 rel len pkt_type) i 0

second_byte :
    (h5 : H5) (rel : Bool) (len pkt_type : ℕ)
    → pkt_type < 16
    → header_byte 1 h5 rel len pkt_type ≡ len % 16 * 16 + pkt_type
unfolding header
second_byte h5 rel len t h =
    let low : len * 16 % 256 ≡ len % 16 * 2 ^ 4 = omega arith in
    ap (λ (x : ℕ). u8 (bit_or x t)) (bit_and_255 (len * 16) ∙ low)
    ∙ ap u8 (bit_or_fields 4 (len % 16) t h)
    ∙ omega arith

third_byte :
    (h5 : H5) (rel : Bool) (len pkt_type : ℕ)
    → len ≤ 0xfff
    → header_byte 2 h5 rel len pkt_type ≡ len / 16
unfolding header
third_byte h5 rel len t h = omega arith

-- From the second and third byte of the header that the sender makes, for a length up to 4095 and a
-- packet type below 16, the receiver reads just this length and this packet type.
pub header_length :
    (h5 : H5) (rel : Bool) (len pkt_type : ℕ)
    → len ≤ 0xfff
    → pkt_type < 16
    → (header_byte 1 h5 rel len pkt_type / 16 + header_byte 2 h5 rel len pkt_type * 16 ≡ len)
      × (h5_hdr_pkt_type (header_byte 1 h5 rel len pkt_type) ≡ pkt_type)
header_length h5 rel len t hl ht = (
  omega (arith, second_byte h5 rel len t ht, third_byte h5 rel len t hl),
  omega (arith, second_byte h5 rel len t ht, bit_and_15 (header_byte 1 h5 rel len t)),
)
