-- ===== src/Coex/State.antt =====
-- The data of rtk_coex.h: connections, profiles and `struct rtl_coex_struct`.
use br_external.Prelude.{ℕ, Bool, true, false, Option, some, List, [], ◌∷◌, replicate}

abbrev pub profile_sco : ℕ
profile_sco = 0

abbrev pub profile_hid : ℕ
profile_hid = 1

abbrev pub profile_a2dp : ℕ
profile_a2dp = 2

abbrev pub profile_pan : ℕ
profile_pan = 3

abbrev pub profile_hid_interval : ℕ
profile_hid_interval = 4

abbrev pub profile_hogp : ℕ
profile_hogp = 5

abbrev pub profile_voice : ℕ
profile_voice = 6

abbrev pub profile_sink : ℕ
profile_sink = 7

abbrev pub profile_max : ℕ
profile_max = 8

abbrev pub a2dp_signal : ℕ
a2dp_signal = 0x01

abbrev pub a2dp_media : ℕ
a2dp_media = 0x02

-- A channel of a profile. Handles, PSMs and channel ids are of 16 bits.
pub record ProfInfo : Type 0 where
  pub handle : ℕ
  pub psm : ℕ
  pub dcid : ℕ
  pub scid : ℕ
  pub profile_index : ℕ
  pub flags : ℕ

-- What a connection is: an ACL link, SCO or eSCO, or low energy; and what else the byte may hold.
pub data LinkType : Type 0 where
  l2cap sco le : LinkType
  other_type : ℕ → LinkType

-- A connection. A delayed work is a Boolean: whether it is queued or running. The counters of
-- profiles are the bit patterns of an `int8_t`, the two words of 16 bits are the lists of their bits.
pub record Conn : Type 0 where
  pub handle : ℕ
  pub a2dp_count_work : Bool
  pub pan_count_work : Bool
  pub hogp_count_work : Bool
  pub a2dp_packet_count : ℕ
  pub pan_packet_count : ℕ
  pub hogp_packet_count : ℕ
  pub voice_packet_count : ℕ
  pub link_type : LinkType
  pub profile_bitmap : List Bool
  pub profile_status : List Bool
  pub profile_refcount : List ℕ

abbrev pub max_len_of_hci_ev : ℕ
max_len_of_hci_ev = 32

abbrev pub num_rtl_hci_ev : ℕ
num_rtl_hci_ev = 32

abbrev pub l2_max_subsec_len : ℕ
l2_max_subsec_len = 128

abbrev pub l2_max_pkts : ℕ
l2_max_pkts = 16

-- A node of one of the pools, with the number of its place in the pages that hold it.
pub record HciEv : Type 0 where
  pub place : ℕ
  pub bytes : List ℕ
  pub len : ℕ

pub record L2Buff : Type 0 where
  pub place : ℕ
  pub bytes : List ℕ
  pub out : Bool

-- What puts the events together. `tbuff` is NULL or points at a place of `back_buff`.
pub record Frags : Type 0 where
  pub expect : ℕ
  pub elen : ℕ
  pub tbuff : Option ℕ
  pub back_buff : List ℕ

-- The pools: `buffers` says that the pages are allocated.
pub record Pools : Type 0 where
  pub buffers : Bool
  pub ev_used_list : List HciEv
  pub ev_free_list : List HciEv
  pub l2_used_list : List L2Buff
  pub l2_free_list : List L2Buff
  pub fw_work : Bool
  pub l2_work : Bool

-- What the kernel gives: whether the device is there and up, the blocks of the calls of `kmalloc`
-- to come with what they hold, and whether the allocations of buffers to come succeed.
pub record Kernel : Type 0 where
  pub hdev : Bool
  pub hci_up : Bool
  pub conn_blocks : List (Option Conn)
  pub prof_blocks : List (Option ProfInfo)
  pub given : List Bool

-- `btrtl_coex`, with `profileinfo_cmd`, the commands that were queued for the controller, and
-- whether anything was read or written outside a block.
pub record Coex : Type 0 where
  pub conn_hash : List Conn
  pub profile_list : List ProfInfo
  pub profile_status : List Bool
  pub ispairing : Bool
  pub isinquirying : Bool
  pub ispaging : Bool
  pub hci_reversion : ℕ
  pub lmp_subversion : ℕ
  pub running : Bool
  pub profileinfo_cmd : Bool
  pub frags : Frags
  pub pools : Pools
  pub kernel : Kernel
  pub cmd_q : List (List ℕ)
  pub outside : Bool

-- A word of 16 bits that is 0, and eight counters at 0.
abbrev pub no_bits : List Bool
no_bits = replicate 16 false

abbrev pub no_counts : List ℕ
no_counts = replicate 8 0

-- Past the script's end every call succeeds, and the block is all zero.
abbrev pub kmalloc {ℓ} : {A : Type ℓ} → A → List (Option A) → Option A × List (Option A)
kmalloc zeroed [] = (some zeroed, [])
kmalloc zeroed (b ∷ bs) = (b, bs)

abbrev pub alloc : List Bool → Bool × List Bool
alloc [] = (true, [])
alloc (b ∷ bs) = (b, bs)

abbrev pub zero_prof : ProfInfo
zero_prof = record { handle = 0; psm = 0; dcid = 0; scid = 0; profile_index = 0; flags = 0 }

abbrev pub zero_conn : Conn
zero_conn = record {
  handle = 0;
  a2dp_count_work = false;
  pan_count_work = false;
  hogp_count_work = false;
  a2dp_packet_count = 0;
  pan_packet_count = 0;
  hogp_packet_count = 0;
  voice_packet_count = 0;
  link_type = l2cap;
  profile_bitmap = no_bits;
  profile_status = no_bits;
  profile_refcount = no_counts;
}
