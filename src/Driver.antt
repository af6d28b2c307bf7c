-- ===== src/Driver.antt =====
-- The three-wire protocol in the kernel driver, hci_rtk_h5.c: what is sent, what comes in, and what
-- is done with a packet that is complete.
pub mod State
pub mod Frame
pub mod Queues
pub mod Recv
pub mod Window
mod Tests
