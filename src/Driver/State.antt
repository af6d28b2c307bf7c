-- ===== src/Driver/State.antt =====
-- `struct h5_struct` of hci_rtk_h5.c.
use br_external.Prelude.{ℕ, Bool, List}
use br_external.Coex.State.{Coex}
use br_external.H5.State.{RxState, RxEscState}

abbrev pub h5_txwinsize : ℕ
h5_txwinsize = 4

-- The types of packets that the code tells apart. Their numbers come from the kernel, except for
-- `H5_ACK_PKT`, `H5_LE_PKT` and `H5_VDRSPEC_PKT`.
pub data PktType : Type 0 where
  acldata command event scodata le ack vdrspec : PktType
  unknown_type : ℕ → PktType

-- A buffer of the kernel with its type.
pub record Pkt : Type 0 where
  pub pkt_type : PktType
  pub bytes : List ℕ

-- The packet that comes in: NULL, given back, or a buffer.
pub data RxSkb : Type 0 where
  no_skb freed_skb : RxSkb
  skb_of : List ℕ → RxSkb

-- `bt_skb_alloc(0x1005, …)`
abbrev pub rx_room : ℕ
rx_room = 0x1005

-- The queues, the numbers and whether `retrans_work` is scheduled. Allocations succeed as `given`
-- says; `received` is what was handed to the kernel, and `woken` whether the line was told that
-- there is something to send. `misused` says whether `rx_skb` was used while it was no buffer, or
-- filled past its room.
pub record H5Struct : Type 0 where
  pub unack : List Pkt
  pub rel : List Pkt
  pub unrel : List Pkt
  pub retrans_work : Bool
  pub use_crc : Bool
  pub rxack : ℕ
  pub rxseq_txack : ℕ
  pub txack_req : Bool
  pub msgq_txseq : ℕ
  pub given : List Bool
  pub received : List Pkt
  pub woken : Bool
  pub coex : Coex
  pub rx_count : ℕ
  pub rx_skb : RxSkb
  pub rx_state : RxState
  pub rx_esc_state : RxEscState
  pub message_crc : ℕ
  pub misused : Bool
