-- ===== src/Driver/Frame.antt =====
-- `h5_prepare_pkt` of hci_rtk_h5.c. The CRC and the SLIP escapes are those of hciattach_rtk.c;
-- `bitrev16` is the kernel's, and an argument.
pub mod Fits
pub mod Readback
use br_external.Prelude.{
  ℕ, ◌+◌, ◌-◌, ◌*◌, ◌/◌, ◌%◌, bit_or, Bool, true, false, if◌then◌else◌, Option, none, some, List,
  [], ◌∷◌, ◌++◌, length,
}
use br_external.Coex.State.{alloc}
use br_external.H5.Crc.{h5_crc_update, h5_crc_init}
use br_external.H5.Slip.{slip_bytes}
use br_external.Driver.State.{
  H5Struct, PktType, acldata, command, event, scodata, le, ack, vdrspec, unknown_type,
}

-- The channel of a type, and whether it is the reliable one.
unfoldable pub channel : PktType → Option (ℕ × Bool)
channel acldata = some (2, true)
channel command = some (1, true)
channel event = some (4, true)
channel scodata = some (3, false)
channel le = some (15, false)
channel ack = some (0, false)
channel vdrspec = some (14, false)
channel (unknown_type n) = none

-- `hdr[0]` to `hdr[3]`
unfoldable pub hdr : H5Struct → ℕ → Bool → ℕ → List ℕ
hdr h5 chan rel len =
    let a = h5.rxseq_txack * 8 % 256 in
    let b = if rel then bit_or a (0x80 + h5.msgq_txseq) % 256 else a in
    let hdr0 = if h5.use_crc then bit_or b 0x40 else b in
    let hdr1 = bit_or (len * 16 % 256) chan % 256 in
    let hdr2 = len / 16 % 256 in hdr0 ∷ hdr1 ∷ hdr2 ∷ (255 - (hdr0 + hdr1 + hdr2) % 256) ∷ []

-- A loop of `h5_slip_one_byte`, and one of `h5_crc_update`.
unfoldable pub slip_all : List ℕ → List ℕ
slip_all [] = []
slip_all (c ∷ cs) = slip_bytes c ++ slip_all cs

unfoldable pub crc_all : ℕ → List ℕ → ℕ
crc_all reg [] = reg
crc_all reg (c ∷ cs) = crc_all (h5_crc_update reg c) cs

-- The two bytes of the CRC, if there is one.
unfoldable pub crc_tail : (ℕ → ℕ) → Bool → List ℕ → List ℕ
unfolding crc_all
crc_tail bitrev16 use_crc bytes =
    let crc = bitrev16 (crc_all h5_crc_init bytes) in
    if use_crc then (crc / 256 % 256) ∷ (crc % 256) ∷ [] else []

unfoldable pub frame : (ℕ → ℕ) → H5Struct → ℕ → Bool → List ℕ → List ℕ
unfolding hdr slip_all crc_tail
frame bitrev16 h5 chan rel bytes =
    let body = hdr h5 chan rel (length bytes) ++ bytes in
    0xc0 ∷ (slip_all (body ++ crc_tail bitrev16 h5.use_crc body) ++ 0xc0 ∷ [])

-- The buffer that `alloc_skb` is asked for.
abbrev pub room : ℕ → ℕ
room len = (len + 6) * 2 + 2

-- What a packet that is sent changes.
unfoldable pub numbered : Bool → H5Struct → H5Struct
numbered rel h5 = record h5 {
  txack_req = false;
  msgq_txseq = if rel then (h5.msgq_txseq + 1) % 8 else h5.msgq_txseq;
}

unfoldable pub h5_prepare_pkt : (ℕ → ℕ) → List ℕ → PktType → H5Struct → Option (List ℕ) × H5Struct
unfolding channel frame numbered
h5_prepare_pkt bitrev16 bytes pkt_type h5 =
    let (there, given) = alloc h5.given in
    let h5' = record h5 { given = given } in
    elim (channel pkt_type) [
      | none ↦ (none, h5)
      | some c ↦
          if there then (some (frame bitrev16 h5 c.0 c.1 bytes), numbered c.1 h5') else (none, h5')
    ]
