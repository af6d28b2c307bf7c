-- ===== src/H5/Prepare.antt =====
-- `h5_prepare_pkt` and `rtb_send_ack` of rtk_hciattach/hciattach_rtk.c.
pub mod Encoding
pub mod Delimiters
pub mod Failure
pub mod Header
use br_external.Prelude.{
  ℕ, ◌+◌, ◌-◌, ◌*◌, ◌/◌, ◌%◌, bit_and, bit_or, Bool, true, false, not, if◌then◌else◌, ◌==◌, ◌||◌,
  Option, none, some, List, [], ◌∷◌, length, Outcome, ok, ◌>>=◌,
}
use br_external.H5.Crc.{h5_crc_update, h5_crc_init, bit_rev16}
use br_external.H5.Skb.{Skb, SkbPtr, null, freed, live, deref, skb_alloc, skb_free, contents}
use br_external.H5.Slip.{h5_slip_one_byte, h5_slip_msgdelim}
use br_external.H5.State.{H5, Rtb, write}

-- The packet types of hciattach_rtk.c.
abbrev pub h5_ack_pkt : ℕ
h5_ack_pkt = 0x00

abbrev pub hci_command_pkt : ℕ
hci_command_pkt = 0x01

abbrev pub hci_acldata_pkt : ℕ
hci_acldata_pkt = 0x02

abbrev pub hci_scodata_pkt : ℕ
hci_scodata_pkt = 0x03

abbrev pub hci_event_pkt : ℕ
hci_event_pkt = 0x04

abbrev pub h5_vdrspec_pkt : ℕ
h5_vdrspec_pkt = 0x0e

abbrev pub h5_link_ctl_pkt : ℕ
h5_link_ctl_pkt = 0x0f

-- The first `switch`: whether the packet goes over the reliable channel; `none` is an unknown type.
unfoldable pub pkt_rel : ℕ → Option Bool
pkt_rel pkt_type =
    if pkt_type == hci_acldata_pkt || pkt_type == hci_command_pkt || pkt_type == hci_event_pkt
    then some true
    else if pkt_type == h5_ack_pkt || pkt_type == h5_vdrspec_pkt || pkt_type == h5_link_ctl_pkt
    then some false
    else none

abbrev pub u8 : ℕ → ℕ
u8 n = n % 256

-- `~n` cut to a byte
abbrev pub not8 : ℕ → ℕ
not8 n = 255 - n % 256

abbrev pub is_set : ℕ → Bool
is_set n = not (n == 0)

-- `hdr[0]`: the sequence number expected next, then the reliable bit and the own number, then the
-- bit for a CRC.
unfoldable pub header0 : H5 → Bool → ℕ
header0 h5 rel =
    let ack = u8 (h5.rxseq_txack * 8) in
    let seq = if rel then u8 (bit_or ack (0x80 + h5.msgq_txseq)) else ack in
    if is_set h5.use_crc then bit_or seq 0x40 else seq

unfoldable pub header : H5 → Bool → ℕ → ℕ → List ℕ
unfolding header0
header h5 rel len pkt_type =
    let hdr0 = header0 h5 rel in
    let hdr1 = u8 (bit_or (bit_and (len * 16) 0xff) pkt_type) in
    let hdr2 = u8 (len / 16) in hdr0 ∷ hdr1 ∷ hdr2 ∷ not8 (hdr0 + hdr1 + hdr2) ∷ []

-- The state after the header is set: `is_txack_req` is off, and a reliable packet takes a number.
unfoldable pub header_state : H5 → Bool → H5
header_state h5 rel = record h5 {
  is_txack_req = 0;
  msgq_txseq = if rel then bit_and (u8 (h5.msgq_txseq + 1)) 0x07 else h5.msgq_txseq;
}

-- A loop that encodes bytes and, with a CRC, counts them in.
unfoldable pub put_bytes : Bool → Skb → ℕ → List ℕ → Outcome (Skb × ℕ)
put_bytes crc skb reg [] = ok (skb, reg)
put_bytes crc skb reg (c ∷ cs) = do
  skb' ← h5_slip_one_byte skb c
  put_bytes crc skb' (if crc then h5_crc_update reg c else reg) cs

-- The two bytes of the CRC, the high one first.
abbrev pub crc_bytes : ℕ → List ℕ
crc_bytes reg =
    let crc = bit_rev16 reg in u8 (bit_and (crc / 256) 0xff) ∷ u8 (bit_and crc 0xff) ∷ []

unfoldable pub put_crc : Bool → Skb → ℕ → Outcome Skb
unfolding put_bytes
put_crc false skb reg = ok skb
put_crc true skb reg = do (skb', _) ← put_bytes false skb 0 (crc_bytes reg); ok skb'

-- The packet that is written into a fresh buffer.
unfoldable pub encode : Skb → List ℕ → List ℕ → Bool → Outcome Skb
unfolding h5_slip_msgdelim put_bytes put_crc
encode nskb hdr payload crc = do
  a ← h5_slip_msgdelim nskb
  (b, reg) ← put_bytes crc a h5_crc_init hdr
  (c, reg') ← put_bytes crc b reg payload
  d ← put_crc crc c reg'
  h5_slip_msgdelim d

-- The part behind `skb_alloc`: its null pointer is handed on.
unfoldable pub prepare_in : SkbPtr → H5 → List ℕ → ℕ → Bool → Outcome (SkbPtr × H5)
unfolding header header_state encode
prepare_in null h5 payload pkt_type rel = ok (null, h5)
prepare_in freed h5 payload pkt_type rel = ok (freed, h5)
prepare_in (live nskb) h5 payload pkt_type rel = do
  skb ← encode nskb (header h5 rel (length payload) pkt_type) payload (is_set h5.use_crc)
  ok (live skb, header_state h5 rel)

-- The pointer that the function returns, and the state, by the result of the first `switch`.
unfoldable pub prepare_with : Option Bool → Rtb → List ℕ → ℕ → Outcome (SkbPtr × Rtb)
unfolding prepare_in skb_alloc
prepare_with none s payload pkt_type = ok (null, s)
prepare_with (some rel) s payload pkt_type = do
  let (nskb, heap') = skb_alloc ((length payload + 6) * 2 + 2) s.heap
  (p, h5') ← prepare_in nskb s.h5 payload pkt_type rel
  ok (p, record s { h5 = h5'; heap = heap' })

-- `len` is the length of `payload`.
unfoldable pub h5_prepare_pkt : Rtb → List ℕ → ℕ → Outcome (SkbPtr × Rtb)
unfolding prepare_with pkt_rel
h5_prepare_pkt s payload pkt_type = prepare_with (pkt_rel pkt_type) s payload pkt_type

-- The pointer is not tested before it is read.
unfoldable pub rtb_send_ack : Rtb → Outcome Rtb
unfolding h5_prepare_pkt
rtb_send_ack s = do
  (p, s') ← h5_prepare_pkt s [] h5_ack_pkt
  nskb ← deref p
  _ ← skb_free p
  ok (write s' (contents nskb))
