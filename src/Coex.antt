-- ===== src/Coex.antt =====
-- Coexistence with Wi-Fi: package/rtl8821cs-bluetooth/src/rtk_coex.c and rtk_coex.h, as they are
-- compiled: nothing in the repository defines RTB_SOFTWARE_MAILBOX.
pub mod State
pub mod Counters
pub mod Notify
pub mod Channels
pub mod Media
pub mod Hci
pub mod Links
pub mod Events
pub mod Pools
pub mod Parser
pub mod Signals
pub mod Moves
pub mod Tests
