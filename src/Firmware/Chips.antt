-- ===== src/Firmware/Chips.antt =====
-- The chips that rtk_hciattach/rtb_fwc.c and rtb_fwc.h know: the constants, `project_id`, the two
-- tables of patches, without the support for the 8703A, and `get_patch_entry`.
pub mod Lookup
use br_external.Prelude.{
  ℕ, ◌≢◌, bit_and, bit_or, Bool, true, false, not, ◌&&◌, if◌then◌else◌, ◌==◌, Option, none, some,
  List, [], ◌∷◌,
}
use Prim.Native.String.{String}

abbrev pub rom_lmp_none : ℕ
rom_lmp_none = 0x0000

abbrev pub rom_lmp_8723a : ℕ
rom_lmp_8723a = 0x1200

abbrev pub rom_lmp_8723b : ℕ
rom_lmp_8723b = 0x8723

abbrev pub rom_lmp_8821a : ℕ
rom_lmp_8821a = 0x8821

abbrev pub rom_lmp_8761a : ℕ
rom_lmp_8761a = 0x8761

abbrev pub rom_lmp_8703a : ℕ
rom_lmp_8703a = 0x87b3

abbrev pub rom_lmp_8763a : ℕ
rom_lmp_8763a = 0x8763

abbrev pub rom_lmp_8703b : ℕ
rom_lmp_8703b = 0x8703

abbrev pub rom_lmp_8723c : ℕ
rom_lmp_8723c = 0x87c3

abbrev pub rom_lmp_8822b : ℕ
rom_lmp_8822b = 0x8822

abbrev pub rom_lmp_8822c : ℕ
rom_lmp_8822c = 0x8822

abbrev pub rom_lmp_8822e : ℕ
rom_lmp_8822e = 0x8822

abbrev pub rom_lmp_8852a : ℕ
rom_lmp_8852a = 0x8852

abbrev pub rom_lmp_8851b : ℕ
rom_lmp_8851b = 0x8851

abbrev pub rom_lmp_8723cs_xx : ℕ
rom_lmp_8723cs_xx = 0x8704

abbrev pub rom_lmp_8723cs_cg : ℕ
rom_lmp_8723cs_cg = 0x8705

abbrev pub rom_lmp_8723cs_vf : ℕ
rom_lmp_8723cs_vf = 0x8706

abbrev pub chip_8852bs : ℕ
chip_8852bs = 0

abbrev pub chip_8723cs_cg : ℕ
chip_8723cs_cg = 3

abbrev pub chip_8723cs_vf : ℕ
chip_8723cs_vf = 4

abbrev pub chip_8723cs_xx : ℕ
chip_8723cs_xx = 5

abbrev pub chip_8703bs : ℕ
chip_8703bs = 7

abbrev pub chip_8725as : ℕ
chip_8725as = 0x05

abbrev pub chip_8761at : ℕ
chip_8761at = 0x1f

abbrev pub chip_8761atf : ℕ
chip_8761atf = 0x2f

abbrev pub chip_8761btc : ℕ
chip_8761btc = 0x3f

abbrev pub chip_8761bh4 : ℕ
chip_8761bh4 = 0x4f

abbrev pub chip_8723bs : ℕ
chip_8723bs = 0x5f

abbrev pub chip_8822bs : ℕ
chip_8822bs = 0x70

abbrev pub chip_8723ds : ℕ
chip_8723ds = 0x71

abbrev pub chip_8821cs : ℕ
chip_8821cs = 0x72

abbrev pub chip_8822cs : ℕ
chip_8822cs = 0x73

abbrev pub chip_8761b : ℕ
chip_8761b = 0x74

abbrev pub chip_8852as : ℕ
chip_8852as = 0x75

abbrev pub chip_8723fs : ℕ
chip_8723fs = 0x76

abbrev pub chip_8852cs : ℕ
chip_8852cs = 0x77

abbrev pub chip_8852bp : ℕ
chip_8852bp = 0x78

abbrev pub chip_8822es : ℕ
chip_8822es = 0x79

abbrev pub chip_8851bs : ℕ
chip_8851bs = 0x7a

abbrev pub rtl_fw_match_chip_type : ℕ
rtl_fw_match_chip_type = 1

abbrev pub rtl_fw_match_hci_ver : ℕ
rtl_fw_match_hci_ver = 2

abbrev pub rtl_fw_match_hci_rev : ℕ
rtl_fw_match_hci_rev = 4

abbrev pub project_id : List ℕ
project_id =
    rom_lmp_8723a ∷ rom_lmp_8723b ∷ rom_lmp_8821a ∷ rom_lmp_8761a ∷ rom_lmp_8703a ∷ rom_lmp_8763a
    ∷ rom_lmp_8703b ∷ rom_lmp_8723c ∷ rom_lmp_8822b ∷ rom_lmp_8723b ∷ rom_lmp_8821a ∷ rom_lmp_none
    ∷ rom_lmp_none ∷ rom_lmp_8822c ∷ rom_lmp_8761a ∷ rom_lmp_none ∷ rom_lmp_none ∷ rom_lmp_none
    ∷ rom_lmp_8852a ∷ rom_lmp_8723b ∷ rom_lmp_8852a ∷ rom_lmp_none ∷ rom_lmp_none ∷ rom_lmp_none
    ∷ rom_lmp_none ∷ rom_lmp_8852a ∷ rom_lmp_none ∷ rom_lmp_none ∷ rom_lmp_none ∷ rom_lmp_none
    ∷ rom_lmp_none ∷ rom_lmp_none ∷ rom_lmp_none ∷ rom_lmp_8822b ∷ rom_lmp_8852a ∷ rom_lmp_none
    ∷ rom_lmp_8851b ∷ []

-- `struct patch_info`
pub record PatchInfo : Type 0 where
  pub match_flags : ℕ
  pub chip_type : ℕ
  pub lmp_subver : ℕ
  pub proj_id : ℕ
  pub hci_ver : ℕ
  pub hci_rev : ℕ
  pub patch_file : String
  pub config_file : String
  pub ic_name : String

-- An entry of a table, its fields in the order of the source.
abbrev info : ℕ → ℕ → ℕ → ℕ → ℕ → ℕ → String → String → String → PatchInfo
info flags chip lmp proj ver rev patch config ic = record {
  match_flags = flags;
  chip_type = chip;
  lmp_subver = lmp;
  proj_id = proj;
  hci_ver = ver;
  hci_rev = rev;
  patch_file = patch;
  config_file = config;
  ic_name = ic;
}

abbrev pub h4_patch_table : List PatchInfo
h4_patch_table =
    info rtl_fw_match_chip_type chip_8761at 0x8761 0xffff 0 0x000a "rtl8761at_fw" "rtl8761at_config"
      "RTL8761AT"
    ∷ info rtl_fw_match_chip_type chip_8761atf 0x8761 0xffff 0 0x000a "rtl8761atf_fw"
        "rtl8761atf_config" "RTL8761ATF"
    ∷ info rtl_fw_match_chip_type chip_8761btc 0x8763 0xffff 0 0x000b "rtl8761btc_fw"
        "rtl8761btc_config" "RTL8761BTC"
    ∷ info rtl_fw_match_chip_type chip_8761bh4 0x8761 0xffff 0 0x000b "rtl8761bh4_fw"
        "rtl8761bh4_config" "RTL8761BH4"
    ∷ info (bit_or rtl_fw_match_hci_ver rtl_fw_match_hci_rev) chip_8723ds rom_lmp_8723b
        rom_lmp_8723b 8 0x000d "rtl8723dsh4_fw" "rtl8723dsh4_config" "RTL8723DSH4"
    ∷ info 0 0 0 rom_lmp_none 0 0 "rtl_none_fw" "rtl_none_config" "NONE"
    ∷ []

abbrev pub patch_table : List PatchInfo
patch_table =
    info 0 0 rom_lmp_8723a rom_lmp_8723a 0 0 "rtl8723a_fw" "rtl8723a_config" "RTL8723AS"
    ∷ info rtl_fw_match_hci_rev chip_8821cs rom_lmp_8821a rom_lmp_8821a 0 0x000c "rtl8821c_fw"
        "rtl8821c_config" "RTL8821CS"
    ∷ info 0 0 rom_lmp_8821a rom_lmp_8821a 0 0 "rtl8821a_fw" "rtl8821a_config" "RTL8821AS"
    ∷ info (bit_or rtl_fw_match_hci_ver rtl_fw_match_hci_rev) 0 rom_lmp_8761a rom_lmp_8761a 0x06
        0x000a "rtl8761a_fw" "rtl8761a_config" "RTL8761ATV"
    ∷ info (bit_or (bit_or rtl_fw_match_chip_type rtl_fw_match_hci_ver) rtl_fw_match_hci_rev)
        chip_8725as rom_lmp_8761a rom_lmp_8761a 0x0a 0x000b "rtl8725as_fw" "rtl8725as_config"
        "RTL8725AS"
    ∷ info (bit_or rtl_fw_match_hci_ver rtl_fw_match_hci_rev) chip_8761b rom_lmp_8761a rom_lmp_8761a
        0x0a 0x000b "rtl8761b_fw" "rtl8761b_config" "RTL8761BTV"
    ∷ info rtl_fw_match_hci_rev chip_8822bs rom_lmp_8822b rom_lmp_8822b 0 0x000b "rtl8822b_fw"
        "rtl8822b_config" "RTL8822BS"
    ∷ info rtl_fw_match_hci_rev chip_8822cs rom_lmp_8822c rom_lmp_8822c 0 0x000c "rtl8822cs_fw"
        "rtl8822cs_config" "RTL8822CS"
    ∷ info (bit_or rtl_fw_match_hci_ver rtl_fw_match_hci_rev) chip_8822es rom_lmp_8822e
        rom_lmp_8822e 0 0x000e "rtl8822es_fw" "rtl8822es_config" "RTL8822ES"
    ∷ info rtl_fw_match_hci_rev chip_8852as rom_lmp_8852a rom_lmp_8852a 11 0x000a "rtl8852as_fw"
        "rtl8852as_config" "RTL8852AS"
    ∷ info (bit_or (bit_or rtl_fw_match_chip_type rtl_fw_match_hci_ver) rtl_fw_match_hci_rev)
        chip_8852bs rom_lmp_8852a rom_lmp_8852a 11 0x000b "rtl8852bs_fw" "rtl8852bs_config"
        "RTL8852BS"
    ∷ info (bit_or (bit_or rtl_fw_match_chip_type rtl_fw_match_hci_ver) rtl_fw_match_hci_rev)
        chip_8852bp rom_lmp_8852a rom_lmp_8852a 11 0x000b "rtl8852bps_fw" "rtl8852bps_config"
        "RTL8852BP"
    ∷ info rtl_fw_match_hci_rev chip_8852cs rom_lmp_8852a rom_lmp_8852a 11 0x000c "rtl8852cs_fw"
        "rtl8852cs_config" "RTL8852CS"
    ∷ info rtl_fw_match_hci_rev chip_8851bs rom_lmp_8851b rom_lmp_8851b 0x0c 0x000b "rtl8851bs_fw"
        "rtl8851bs_config" "RTL8851BS"
    ∷ info rtl_fw_match_chip_type chip_8703bs rom_lmp_8703b rom_lmp_8703b 0 0 "rtl8703b_fw"
        "rtl8703b_config" "RTL8703BS"
    ∷ info rtl_fw_match_chip_type chip_8723cs_xx rom_lmp_8703b rom_lmp_8723cs_xx 0 0 "rtl8723cs_fw"
        "rtl8723cs_config" "RTL8723CS_XX"
    ∷ info rtl_fw_match_chip_type chip_8723cs_cg rom_lmp_8703b rom_lmp_8723cs_cg 0 0 "rtl8723cs_fw"
        "rtl8723cs_config" "RTL8723CS_CG"
    ∷ info rtl_fw_match_chip_type chip_8723cs_vf rom_lmp_8703b rom_lmp_8723cs_vf 0 0 "rtl8723cs_fw"
        "rtl8723cs_config" "RTL8723CS_VF"
    ∷ info (bit_or rtl_fw_match_hci_ver rtl_fw_match_hci_rev) 0 rom_lmp_8723b rom_lmp_8723b 6 0x000b
        "rtl8723b_fw" "rtl8723b_config" "RTL8723BS"
    ∷ info (bit_or rtl_fw_match_hci_ver rtl_fw_match_hci_rev) chip_8723ds rom_lmp_8723b
        rom_lmp_8723b 8 0x000d "rtl8723d_fw" "rtl8723d_config" "RTL8723DS"
    ∷ info (bit_or rtl_fw_match_hci_ver rtl_fw_match_hci_rev) chip_8723fs rom_lmp_8723b
        rom_lmp_8723b 11 0x000f "rtl8723fs_fw" "rtl8723fs_config" "RTL8723FS"
    ∷ info 0 0 0 rom_lmp_none 0 0 "rtl_none_fw" "rtl_none_config" "NONE"
    ∷ []

abbrev pub hci_uart_3wire : ℕ
hci_uart_3wire = 2

-- What the driver knows of a controller.
pub record Controller : Type 0 where
  pub proto : ℕ
  pub chip_type : ℕ
  pub lmp_subver : ℕ
  pub hci_ver : ℕ
  pub hci_rev : ℕ

-- A field that an entry does not ask for is not compared.
abbrev differs : ℕ → ℕ → ℕ → ℕ → Bool
differs flags flag a b = not (bit_and flags flag == 0) && not (a == b)

-- Whether the body of the loop comes to its `break`.
unfoldable pub is_match : PatchInfo → Controller → Bool
is_match n c =
    if differs n.match_flags rtl_fw_match_chip_type n.chip_type c.chip_type
    then false
    else if differs n.match_flags rtl_fw_match_hci_ver n.hci_ver c.hci_ver
    then false
    else if differs n.match_flags rtl_fw_match_hci_rev n.hci_rev c.hci_rev
    then false
    else if not (n.lmp_subver == c.lmp_subver)
    then false
    else true

-- The loop ends at a match or at the entry without `lmp_subver`; `none` where a table has no such
-- entry and the code would read on.
unfoldable pub find_entry : List PatchInfo → Controller → Option PatchInfo
find_entry [] c = none
find_entry (n ∷ rest) c =
    let next = find_entry rest c in
    if n.lmp_subver == 0 then some n else if is_match n c then some n else next

unfoldable pub get_patch_entry : Controller → Option PatchInfo
get_patch_entry c = find_entry (if c.proto == hci_uart_3wire then patch_table else h4_patch_table) c
