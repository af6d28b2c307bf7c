-- ===== src/H5/State.antt =====
-- `struct rtb_struct` of rtk_hciattach/hciattach.h. Its only instance is the global `rtb_cfg`, and
-- every caller passes that one, so the parameter `h5` and `rtb_cfg` are one state here.
pub mod Valid
use br_external.Prelude.{ℕ, Bool, List, ◌++◌, [], ◌∷◌}
use br_external.H5.Skb.{SkbPtr}

pub data RxState : Type 0 where
  w4_pkt_delimiter w4_pkt_start w4_hdr w4_data w4_crc : RxState

pub data RxEscState : Type 0 where
  noesc esc : RxEscState

pub data LinkState : Type 0 where
  sync config init patch hci_reset active : LinkState

-- The fields of the three-wire layer, from `rxseq_txack` to `rx_skb`.
pub record H5 : Type 0 where
  pub rxseq_txack : ℕ
  pub rxack : ℕ
  pub use_crc : ℕ
  pub is_txack_req : ℕ
  pub msgq_txseq : ℕ
  pub message_crc : ℕ
  pub rx_count : ℕ
  pub rx_state : RxState
  pub rx_esc_state : RxEscState
  pub rx_skb : SkbPtr

-- What the answers of the chip are stored in.
pub record Chip : Type 0 where
  pub num_of_cmd_sent : ℕ
  pub lmp_subver : ℕ
  pub hci_rev : ℕ
  pub hci_ver : ℕ
  pub eversion : ℕ
  pub chip_type : ℕ
  pub chip_ver : ℕ
  pub key_id : ℕ

pub record CmdState : Type 0 where
  pub opcode : ℕ
  pub subopcode : ℕ
  pub state : ℕ

-- `sent` is what `write` was given for `serial_fd`, and `heap` the answers of `malloc` to come.
pub record Rtb : Type 0 where
  pub h5 : H5
  pub link_estab_state : LinkState
  pub chip : Chip
  pub cmd_state : CmdState
  pub total_num : ℕ
  pub tx_index : ℕ
  pub rx_index : ℕ
  pub sent : List (List ℕ)
  pub heap : List Bool

-- `write(rtb_cfg.serial_fd, …)`: the code only logs what it returns.
abbrev pub write : Rtb → List ℕ → Rtb
write s bytes = record s { sent = s.sent ++ (bytes ∷ []) }
