-- ===== src/H5.antt =====
-- The three-wire (H5) protocol of rtk_hciattach: package/rtl8821cs-bluetooth/src/rtk_hciattach.
pub mod Crc
pub mod Skb
pub mod Slip
pub mod State
pub mod Prepare
pub mod Frame
pub mod Recv
pub mod Tests
