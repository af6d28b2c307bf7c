-- ===== src/Firmware.antt =====
-- The firmware files: rtk_hciattach/rtb_fwc.c.
pub mod Chips
pub mod Config
pub mod Patches
pub mod Sections
pub mod Image
pub mod Tests
