-- ===== src/H5/State/Valid.antt =====
-- The invariant of the receiver in `struct rtb_struct`.
use br_external.Prelude.{
  ℕ, ◌+◌, ◌-◌, ◌≤◌, ◌<◌, ◌^◌, ◌≡◌, refl, arith, List, [], ◌∷◌, All, All-append, Bool, true, sym,
  subst,
}
use br_external.H5.Skb.{Skb, SkbPtr, null, freed, live, contents}
use br_external.H5.Skb.Laws.{IsBlock, appended, append-Appended}
use br_external.H5.State.{H5, Rtb, RxState, w4_pkt_delimiter, w4_pkt_start, w4_hdr, w4_data, w4_crc}

abbrev pub IsByte : ℕ → Type 0
IsByte b = b < 256

-- The buffer of the packet that is being received.
pub record IsPacket (s : Skb) : Type 0 where
  pub block : IsBlock s
  pub base : s.off ≡ 0
  pub size : s.max_len ≡ 0x1005
  pub bytes : All IsByte (contents s)

-- What the receiver holds in each state, with `n` bytes to come: between packets no buffer, and in
-- a packet a buffer with room for these bytes.
abbrev pub Holding : RxState → ℕ → SkbPtr → Type 0
Holding w4_pkt_delimiter n null = n ≡ 0
Holding w4_pkt_delimiter n freed = n ≡ 0
Holding w4_pkt_delimiter n (live s) = ⊥
Holding w4_pkt_start n null = n ≡ 0
Holding w4_pkt_start n freed = n ≡ 0
Holding w4_pkt_start n (live s) = ⊥
Holding w4_hdr n null = ⊥
Holding w4_hdr n freed = ⊥
Holding w4_hdr n (live s) = IsPacket s × (s.data_len + n ≡ 4)
Holding w4_data n null = ⊥
Holding w4_data n freed = ⊥
Holding w4_data n (live s) = IsPacket s × (4 ≤ s.data_len) × (s.data_len + n ≤ 0x1003)
Holding w4_crc n null = ⊥
Holding w4_crc n freed = ⊥
Holding w4_crc n (live s) =
    IsPacket s × (4 ≤ s.data_len) × (6 ≤ s.data_len + n) × (s.data_len + n ≤ 0x1005)

pub record Valid (h5 : H5) : Type 0 where
  pub holding : Holding h5.rx_state h5.rx_count h5.rx_skb
  pub crc : h5.message_crc < 2 ^ 16
  pub rxseq : h5.rxseq_txack < 8
  pub txseq : h5.msgq_txseq < 8

-- Every call of `malloc` to come succeeds.
abbrev pub AllGiven : List Bool → Type 0
AllGiven heap = All (λ b. b ≡ true) heap

pub record IsValid (s : Rtb) : Type 0 where
  pub h5_valid : Valid s.h5
  pub given : AllGiven s.heap

-- With bytes to come there is a packet, with room for them.
pub live_of :
    (st : RxState) (n : ℕ) (p : SkbPtr)
    → Holding st n p
    → 0 < n
    → (s : Skb) × (p ≡ live s) × IsPacket s × (s.data_len + n ≤ 0x1005)
live_of w4_pkt_delimiter n null h m = absurd (omega arith)
live_of w4_pkt_delimiter n freed h m = absurd (omega arith)
live_of w4_pkt_delimiter n (live s) h m = absurd h
live_of w4_pkt_start n null h m = absurd (omega arith)
live_of w4_pkt_start n freed h m = absurd (omega arith)
live_of w4_pkt_start n (live s) h m = absurd h
live_of w4_hdr n null h m = absurd h
live_of w4_hdr n freed h m = absurd h
live_of w4_hdr n (live s) h m = (s, refl, h.0, omega arith)
live_of w4_data n null h m = absurd h
live_of w4_data n freed h m = absurd h
live_of w4_data n (live s) h m = (s, refl, h.0, omega arith)
live_of w4_crc n null h m = absurd h
live_of w4_crc n freed h m = absurd h
live_of w4_crc n (live s) h m = (s, refl, h.0, omega arith)

pub appended-IsPacket :
    (s : Skb) (byte : ℕ)
    → IsPacket s
    → s.data_len + 1 ≤ 0x1005
    → IsByte byte
    → IsPacket (appended s (byte ∷ []))
appended-IsPacket s byte v room small =
    let a = append-Appended s (byte ∷ []) v.block (omega arith) in
    record {
      block = a.valid;
      base = v.base;
      size = v.size;
      bytes =
          subst (All IsByte) (sym a.holds)
            (All-append IsByte (contents s) (byte ∷ []) v.bytes (small, tt));
    }

-- One byte more in the buffer and one less to come.
pub Holding-appended :
    (st : RxState) (n : ℕ) (s : Skb) (byte : ℕ)
    → Holding st n (live s)
    → 0 < n
    → IsByte byte
    → Holding st (n - 1) (live (appended s (byte ∷ [])))
Holding-appended w4_pkt_delimiter n s byte h m b = absurd h
Holding-appended w4_pkt_start n s byte h m b = absurd h
Holding-appended w4_hdr n s byte h m b = (appended-IsPacket s byte h.0 (omega arith) b, omega arith)
Holding-appended w4_data n s byte h m b =
    (appended-IsPacket s byte h.0 (omega arith) b, omega arith, omega arith)
Holding-appended w4_crc n s byte h m b =
    (appended-IsPacket s byte h.0 (omega arith) b, omega arith, omega arith, omega arith)
