-- ===== src/Speed/Tests.antt =====
-- Speeds in and out of the table.
use br_external.Prelude.{◌≡◌, if◌then◌else◌}
use br_external.Speed.{baudrates, vendor_speed_to_std, std_speed_to_vendor}
use br_external.Speed.Both.{is_listed, vendor_speed_to_std-std_speed_to_vendor}

vendor_speed_to_std-std_speed_to_vendor_example :
    vendor_speed_to_std (std_speed_to_vendor 1500000)
    ≡ (if is_listed baudrates 1500000 then 1500000 else 115200)
vendor_speed_to_std-std_speed_to_vendor_example = vendor_speed_to_std-std_speed_to_vendor 1500000
