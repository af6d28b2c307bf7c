-- ===== src/Speed.antt =====
-- The table of UART speeds in rtk_hciattach/hciattach_rtk.c: `vendor_speed_to_std` and
-- `std_speed_to_vendor`, with four-byte codes and without the support for the 8703A.
pub mod Both
pub mod Tests
use br_external.Prelude.{ℕ, Bool, true, false, if◌then◌else◌, ◌==◌, List, [], ◌∷◌}

-- `struct rtb_baud`
pub record Baud : Type 0 where
  pub rtb_speed : ℕ
  pub uart_speed : ℕ

abbrev baud : ℕ → ℕ → Baud
baud vendor std = record { rtb_speed = vendor; uart_speed = std }

abbrev pub baudrates : List Baud
baudrates =
    baud 0x0252C014 115200
    ∷ baud 0x0252C00A 230400
    ∷ baud 0x05F75004 921600
    ∷ baud 0x00005004 1000000
    ∷ baud 0x04928002 1500000
    ∷ baud 0x01128002 1500000
    ∷ baud 0x00005002 2000000
    ∷ baud 0x0000B001 2500000
    ∷ baud 0x04928001 3000000
    ∷ baud 0x052A6001 3500000
    ∷ baud 0x00005001 4000000
    ∷ []

-- The loops over the table; the value set before the loop stays where nothing is found.
unfoldable pub std_of : List Baud → ℕ → ℕ
std_of [] rtb_speed = 115200
std_of (b ∷ bs) rtb_speed =
    let next = std_of bs rtb_speed in if b.rtb_speed == rtb_speed then b.uart_speed else next

unfoldable pub vendor_speed_to_std : ℕ → ℕ
unfolding std_of
vendor_speed_to_std rtb_speed = std_of baudrates rtb_speed

unfoldable pub vendor_of : List Baud → ℕ → ℕ
vendor_of [] uart_speed = 0x701D
vendor_of (b ∷ bs) uart_speed =
    let next = vendor_of bs uart_speed in if b.uart_speed == uart_speed then b.rtb_speed else next

unfoldable pub std_speed_to_vendor : ℕ → ℕ
unfolding vendor_of
std_speed_to_vendor uart_speed = vendor_of baudrates uart_speed
