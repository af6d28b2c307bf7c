-- ===== src/Firmware/Tests.antt =====
-- Runs of the firmware code on small files.
use br_external.Prelude.{
  fault, true, ◌==◌, ◌||◌, ◌++◌, length, replicate, length-replicate, ℕ, ◌+◌, ◌≡◌, refl, arith,
  false, some, List, [], ◌∷◌, ok, Yields,
}
use br_external.Firmware.Chips.{Controller, PatchInfo, get_patch_entry, chip_8821cs}
use br_external.Firmware.Chips.Lookup.{IsFirst, table_of, get_patch_entry-IsFirst}
use br_external.Firmware.Config.{
  CfgItem, merge_configs, rtb_parse_config, write_config, items, is_mac, get_mac_offset,
}
use br_external.Firmware.Config.Address.{mac_table, listed, offset_of, is_mac-get_mac_offset}
use br_external.Firmware.Config.Format.{size, write_config-overflow, rtb_parse_config-write_config}
use br_external.Firmware.Config.Values.{lookup, merged, Distinct}
use br_external.Firmware.Config.Merge.{merge_configs-merged}
use br_external.Firmware.Patches.{
  byte_at, PatchNode, Collected, done, ChipInfo, insert_queue_sort, insert_patch,
}
use br_external.Firmware.Patches.Sorted.{
  IsSorted, total, Exact, Comes, insert_queue_sort-IsSorted, insert_patch-Exact,
}
use br_external.Firmware.Image.Whole.{old_image-patch, new_image-joined}
use br_external.Firmware.Sections.{rtb_get_patch_header}
use br_external.Firmware.Sections.Ordered.{Ordered, Partial, rtb_get_patch_header-Ordered}
use br_external.Firmware.Image.{
  Files, PatchEntry, slice, rtb_get_patch_entry, old_image, new_image, rtb_get_fw_project_id,
}
use br_external.Firmware.Image.Project.{
  Extension, layout, project_of, rtb_get_fw_project_id-project_of,
}

abbrev item : ℕ → List ℕ → CfgItem
item offset bytes = record { offset = offset; bytes = bytes }

-- A rate, an address and a flag.
abbrev original : List CfgItem
original = item 0x000c (1 ∷ 2 ∷ 3 ∷ 4 ∷ []) ∷ item 0x0044 (9 ∷ 9 ∷ 9 ∷ 9 ∷ 9 ∷ 9 ∷ []) ∷ []

abbrev changes : List CfgItem
changes =
    item 0x0044 (1 ∷ 2 ∷ 3 ∷ 4 ∷ 5 ∷ 6 ∷ []) ∷ item 0x000c (7 ∷ []) ∷ item 0x0018 (1 ∷ []) ∷ []

merge_run :
    merge_configs original changes
    ≡ item 0x000c (7 ∷ 2 ∷ 3 ∷ 4 ∷ [])
      ∷ item 0x0044 (1 ∷ 2 ∷ 3 ∷ 4 ∷ 5 ∷ 6 ∷ [])
      ∷ item 0x0018 (1 ∷ [])
      ∷ []
unfolding merge_configs
merge_run = refl

-- An item of the same offset twice: the extra one stands where the last of them stood.
merge_twice :
    merge_configs (item 1 (5 ∷ []) ∷ item 2 [] ∷ item 1 (6 ∷ []) ∷ []) (item 1 (7 ∷ []) ∷ [])
    ≡ item 2 [] ∷ item 1 (7 ∷ []) ∷ []
unfolding merge_configs
merge_twice = refl

original-Distinct : Distinct original
original-Distinct = unfold Distinct lookup in (refl, (refl, tt))

changes-Distinct : Distinct changes
changes-Distinct = unfold Distinct lookup in (refl, (refl, (refl, tt)))

merge_configs-merged_example :
    lookup 0x000c (merge_configs original changes)
    ≡ merged (lookup 0x000c changes) (lookup 0x000c original)
merge_configs-merged_example =
    merge_configs-merged original changes 0x000c original-Distinct changes-Distinct

rtb_parse_config-write_config_example :
    (buf : List ℕ) × (write_config original [] ≡ ok (some buf, length buf, []))
    × (rtb_parse_config buf [] [] ≡ ok (items original []))
rtb_parse_config-write_config_example =
    rtb_parse_config-write_config original [] (omega arith) (unfold size in omega arith)

-- Items of 65536 bytes in all: 256 of 253 bytes each.
abbrev large : List CfgItem
large = replicate 256 (item 0x0100 (replicate 253 0))

write_config-overflow_example : write_config large [] ≡ fault
write_config-overflow_example = write_config-overflow large (unfold size in omega arith)

is_mac-get_mac_offset_example :
    (get_mac_offset chip_8821cs ≡ offset_of chip_8821cs mac_table)
    × (is_mac chip_8821cs (get_mac_offset chip_8821cs) ≡ listed chip_8821cs mac_table)
    × (is_mac chip_8821cs 0x0044
        ≡ offset_of chip_8821cs mac_table == 0x0044
          || (chip_8821cs == 3 || (chip_8821cs == 4 || chip_8821cs == 5)))
is_mac-get_mac_offset_example = is_mac-get_mac_offset chip_8821cs (omega arith)

abbrev controller : Controller
controller = record { proto = 2; chip_type = 0; lmp_subver = 0x8821; hci_ver = 8; hci_rev = 0x000c }

get_patch_entry-IsFirst_example :
    (n : PatchInfo) × (get_patch_entry controller ≡ some n)
    × IsFirst (table_of controller) controller n
get_patch_entry-IsFirst_example = get_patch_entry-IsFirst controller

abbrev node : ℕ → ℕ → PatchNode
node pri len = record { pri = pri; key_id = pri; len = len; payload = 40 }

abbrev nodes : List PatchNode
nodes = node 1 10 ∷ node 3 20 ∷ []

nodes-IsSorted : IsSorted nodes
nodes-IsSorted = unfold IsSorted in omega arith

insert_queue_sort-IsSorted_example :
    IsSorted (insert_queue_sort nodes (node 3 5))
    × (total (insert_queue_sort nodes (node 3 5)) ≡ 5 + total nodes)
insert_queue_sort-IsSorted_example = insert_queue_sort-IsSorted nodes (node 3 5) nodes-IsSorted

-- A section of snippets with one entry for the second version of a chip.
abbrev snippets : List ℕ
snippets =
    1 ∷ 0 ∷ 0 ∷ 0 ∷ 14 ∷ 0 ∷ 0 ∷ 0 ∷ 1 ∷ 0 ∷ 0 ∷ 0 ∷ 2 ∷ 7 ∷ 0 ∷ 0 ∷ 2 ∷ 0 ∷ 0 ∷ 0 ∷ 0xaa ∷ 0xbb
    ∷ []

abbrev chip : ChipInfo
chip = record { eversion = 1; key_id = 0 }

abbrev start : Collected
start = record { nodes = []; patch_len = 0; sec_flag = false; heap = [] }

start-Exact : Exact start
start-Exact = record { sorted = unfold IsSorted in tt; length = unfold total in refl }

insert_patch-Exact_example : Yields (Comes Exact IsSorted) (insert_patch snippets chip 0 1 start)
insert_patch-Exact_example = insert_patch-Exact snippets chip 0 1 start (omega arith) start-Exact

insert_patch_run :
    insert_patch snippets chip 0 1 start
    ≡ ok (
        done (record {
          nodes = record { pri = 7; key_id = 7; len = 2; payload = 20 } ∷ [];
          patch_len = 2;
          sec_flag = false;
          heap = [];
        }))
unfolding insert_patch
insert_patch_run = refl

-- A record of two bytes, and the project's number.
abbrev extensions : List Extension
extensions = (0x01, 5 ∷ 6 ∷ []) ∷ (0x00, 10 ∷ []) ∷ []

rtb_get_fw_project_id-project_of_example :
    rtb_get_fw_project_id (layout extensions (1 ∷ [])) ≡ ok (project_of extensions)
rtb_get_fw_project_id-project_of_example =
    rtb_get_fw_project_id-project_of (0x01, 5 ∷ 6 ∷ []) ((0x00, 10 ∷ []) ∷ []) (1 ∷ [])
      (omega arith)

project_run : rtb_get_fw_project_id (layout extensions (1 ∷ [])) ≡ ok 10
unfolding rtb_get_fw_project_id layout byte_at
project_run = refl

-- Fresh blocks, whatever is in them.
abbrev block : ℕ → List ℕ
block n = replicate n 0xee

block-length : (n : ℕ) → length (block n) ≡ n
block-length n = length-replicate n 0xee

abbrev signature : List ℕ
signature = 0x52 ∷ 0x65 ∷ 0x61 ∷ 0x6c ∷ 0x74 ∷ 0x65 ∷ 0x63 ∷ 0x68 ∷ []

abbrev version : List ℕ
version = 1 ∷ 2 ∷ 3 ∷ 4 ∷ []

abbrev table : List ℕ
table = 1 ∷ 0 ∷ 1 ∷ 0 ∷ 12 ∷ 0 ∷ 22 ∷ 0 ∷ 0 ∷ 0 ∷ []

abbrev code : List ℕ
code = 10 ∷ 11 ∷ 12 ∷ 13 ∷ 14 ∷ 15 ∷ 16 ∷ 17 ∷ []

abbrev old_end : List ℕ
old_end = 0 ∷ 0 ∷ 0 ∷ 0 ∷ []

-- A file of the old kind with one patch of twelve bytes, for the first version of a chip.
abbrev old_files : Files
old_files = record {
  fw_buf = signature ++ (version ++ (table ++ (code ++ old_end)));
  config_buf = 0x55 ∷ 0xab ∷ [];
  lmp_subver = 0x8821;
  proj_id = 0;
  chip = record { eversion = 0; key_id = 0 };
}

abbrev old_entry : PatchEntry
old_entry = record {
  chip_id = 1;
  patch_len = 12;
  soffset = 22;
  svn_ver = 0x11100f0e;
  coex_ver = 0x0d0c0b0a;
}

old_entry_found : rtb_get_patch_entry old_files.fw_buf 0 [] ≡ ok (some old_entry)
old_entry_found = unfold rtb_get_patch_entry in refl

old_image-patch_example :
    old_image old_files true [] block ≡ ok (some (code ++ (version ++ (0x55 ∷ 0xab ∷ []))))
old_image-patch_example =
    old_image-patch old_files [] block block-length old_entry (signature ++ (version ++ table)) code
      old_end [] signature version (table ++ (code ++ old_end)) old_entry_found refl refl refl refl
      refl refl refl

-- A file of the new kind with one section of snippets.
abbrev new_files : Files
new_files = record {
  fw_buf =
      0x52 ∷ 0x54 ∷ 0x42 ∷ 0x54 ∷ 0x43 ∷ 0x6f ∷ 0x72 ∷ 0x65 ∷ 0 ∷ 0 ∷ 0 ∷ 0 ∷ 0 ∷ 0 ∷ 0 ∷ 0 ∷ 1 ∷ 0
      ∷ 0 ∷ 0 ∷ snippets;
  config_buf = 0x55 ∷ 0xab ∷ [];
  lmp_subver = 0x8821;
  proj_id = 0;
  chip = chip;
}

abbrev new_node : PatchNode
new_node = record { pri = 7; key_id = 7; len = 2; payload = 40 }

new_nodes_collected : rtb_get_patch_header new_files.fw_buf chip [] ≡ ok (2, new_node ∷ [])
new_nodes_collected = unfold rtb_get_patch_header in refl

new_image-joined_example :
    new_image new_files true [] block ≡ ok (some (0xaa ∷ 0xbb ∷ 0x55 ∷ 0xab ∷ []))
new_image-joined_example =
    new_image-joined new_files [] block block-length 2 (new_node ∷ []) ((0xaa ∷ 0xbb ∷ []) ∷ [])
      new_nodes_collected (unfold total in refl) (omega arith) (unfold slice in (refl, refl, tt))

-- A security header for another key is left out of the list, but its length is counted.
security_counted :
    insert_patch snippets (record chip { key_id = 9 }) 0 3 start
    ≡ ok (done (record start { patch_len = 2 }))
unfolding insert_patch
security_counted = refl

rtb_get_patch_header-Ordered_example :
    Yields Ordered (rtb_get_patch_header new_files.fw_buf chip [])
    × Yields Partial (rtb_get_patch_header new_files.fw_buf chip (true ∷ false ∷ []))
rtb_get_patch_header-Ordered_example =
    rtb_get_patch_header-Ordered new_files.fw_buf chip (true ∷ false ∷ []) refl
