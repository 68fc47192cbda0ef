-- ===== src/Storage/Tests.antt =====
-- A disk with a protective entry and no GPT header, and the theorems at concrete inputs.
use schwarz_kernel.Prelude.{
  ℕ, ◌+◌, ◌*◌, ◌%◌, ◌^◌, ◌≤◌, ◌<◌, ◌≡◌, refl, ◌≢◌, inl, true, Option, none, some, List, [], ◌∷◌,
  ◌==◌, if◌then◌else◌, set, get_or, length, Bool-cases, eq_of_some, inr, min, replicate, take,
  arith, le16, le32, le64,
}
use schwarz_kernel.Storage.Disk.{clear_disk_info, no_partition, boot_fs_fat32}
use schwarz_kernel.Storage.FatKind.{
  read_bpb, has_boot_signature, total_sectors, fat_size, root_dir_sectors, kind_of_clusters,
  IsFatLayout, IsKindOf, clusters_in, FatKind, fat32, data_sectors, bpb_kind,
  detect_fat_boot_sector_kind, detect_fat_boot_sector_kind_lem,
}
use schwarz_kernel.Storage.Scan.{Scan}
use schwarz_kernel.Storage.Mbr.{mbr_entry, mbr_entries, has_protective, detect_mbr_partitions}
use schwarz_kernel.Storage.Gpt.{gpt_header, add_gpt_entries, detect_gpt_partitions}
use schwarz_kernel.Storage.Table.{detect_partition_table}
use schwarz_kernel.Storage.Record.{
  TableIsValid, recorded, mbr_partitions, gpt_partitions, of_mbr, detect_mbr_partitions-recorded,
  add_gpt_entries-recorded,
}
use schwarz_kernel.Storage.Bounds.{detect_gpt_partitions_behind}
use schwarz_kernel.Storage.Scans.{detect_partition_table-TableIsValid}
use schwarz_kernel.Storage.Registry.{
  Drivers, Registry, backend_usb, backend_none, disk_at, storage_read_disk_sector,
  storage_read_partition_sector, storage_register_usb_disk, storage_register_boot_volume,
  BootVolumeHandoff, disk_read_sector, read_backend,
}
use schwarz_kernel.Storage.Registration.{
  RegistryIsValid, Extends, storage_register_usb_disk-Extends, storage_register_boot_volume-Extends,
  storage_read_disk_sector-boot_volume, storage_read_partition_sector_lem,
}
use schwarz_kernel.Storage.Detected.{
  register_ahci_disk, register_ide_disk, register_ata_disk-Extends,
}

-- A FAT32 boot sector: 512 bytes a sector, one sector a cluster, 32 reserved, two tables of 1000
-- sectors, 200000 sectors.
abbrev fat_sector : List ℕ
fat_sector =
    set
      (set
        (set
          (set
            (set (set (set (set (set (set (replicate 512 0) 510 0x55) 511 0xAA) 12 2) 13 1) 14 32)
              16 2)
            32 0x40)
          33 0x0D)
        34 3)
      36 100

-- An MBR with a protective entry and one Linux partition.
abbrev protective_sector : List ℕ
protective_sector =
    set (set (set (set (set (set (replicate 512 0) 510 0x55) 511 0xAA) 450 0xEE) 466 0x83) 470 8)
      474 16

abbrev zero_sector : List ℕ
zero_sector = replicate 512 0

-- Sector 0 is the MBR, any other is zero.
abbrev read : ℕ → Option (List ℕ)
read lba = if lba == 0 then some protective_sector else some zero_sector

read_sectors : (lba : ℕ) (sector : List ℕ) → read lba ≡ some sector → length sector ≡ 512
read_sectors lba sector e = elim (Bool-cases (lba == 0)) [
  | inl z ↦ let e' : some protective_sector ≡ some sector = rw z at e in rw (← eq_of_some e') refl
  | inr n ↦ let e' : some zero_sector ≡ some sector = rw n at e in rw (← eq_of_some e') refl
]

abbrev scan : Scan
scan = record { disk = clear_disk_info; sector_buffer = []; gpt_entry_buffer = replicate 4096 0 }

fat_sector-IsFatLayout : IsFatLayout fat_sector
unfolding le16 le32
fat_sector-IsFatLayout = record {
  signature_low = refl;
  signature_high = refl;
  sector_size = inl refl;
  clusters = omega arith;
  reserved = omega arith;
  fats = omega arith;
  fat_sectors = omega arith;
  total_small = omega arith;
  fits = omega arith;
}

-- It is a FAT32 volume.
fat_sector_kind : detect_fat_boot_sector_kind fat_sector ≡ some fat32
unfolding detect_fat_boot_sector_kind has_boot_signature bpb_kind read_bpb le16 le32 total_sectors
    fat_size root_dir_sectors data_sectors kind_of_clusters
fat_sector_kind = refl

detect_fat_boot_sector_kind_lem_example :
    (k : FatKind) × (detect_fat_boot_sector_kind fat_sector ≡ some k)
    × IsKindOf (clusters_in fat_sector) k
detect_fat_boot_sector_kind_lem_example =
    detect_fat_boot_sector_kind_lem fat_sector fat_sector-IsFatLayout

clear_slots : length clear_disk_info.partitions ≡ 8
unfolding clear_disk_info
clear_slots = refl

clear_count : clear_disk_info.partition_count ≡ 0
unfolding clear_disk_info
clear_count = refl

detect_mbr_partitions-recorded_example :
    recorded (detect_mbr_partitions protective_sector clear_disk_info)
    ≡ mbr_partitions (mbr_entries protective_sector)
detect_mbr_partitions-recorded_example =
    detect_mbr_partitions-recorded protective_sector clear_disk_info clear_slots

-- The protective entry has no length here: one entry of the boot sector is in use.
protective_sector_entries : length (mbr_partitions (mbr_entries protective_sector)) ≡ 1
unfolding mbr_partitions of_mbr mbr_entry le32 le16
protective_sector_entries = refl

-- Two GPT entries of 128 bytes, of which the second is not used.
abbrev gpt_table : List ℕ
gpt_table = set (set (set (replicate 256 0) 0 1) 32 34) 40 100

add_gpt_entries-recorded_example :
    recorded (add_gpt_entries gpt_table 128 2 0 clear_disk_info)
    ≡ take 8 (gpt_partitions gpt_table 128 2 0)
add_gpt_entries-recorded_example =
    add_gpt_entries-recorded gpt_table 128 2 clear_disk_info clear_slots clear_count

zero_header_fits :
    (sector : List ℕ)
    → read 1 ≡ some sector
    → (gpt_header sector).partition_entry_size * min (gpt_header sector).partition_entry_count 32
      ≤ 4096
unfolding gpt_header le32 le16
zero_header_fits sector e = rw (← eq_of_some e) (omega arith)

detect_gpt_partitions_behind_example :
    detect_gpt_partitions read [] scan ≡ detect_gpt_partitions read (7 ∷ []) scan
detect_gpt_partitions_behind_example =
    detect_gpt_partitions_behind read read_sectors [] (7 ∷ []) scan refl zero_header_fits

detect_partition_table-TableIsValid_example :
    TableIsValid (detect_partition_table read [] scan).disk
detect_partition_table-TableIsValid_example =
    detect_partition_table-TableIsValid read [] scan clear_slots

protective_signature : has_boot_signature protective_sector ≡ true
unfolding has_boot_signature
protective_signature = refl

protective_entry : has_protective (mbr_entries protective_sector) ≡ true
unfolding has_protective mbr_entry le32 le16
protective_entry = refl

zero_signature : (gpt_header zero_sector).signature ≢ 0x5452415020494645
unfolding gpt_header le64 le32 le16
zero_signature e = omega arith

-- Only USB device 3 answers, as `read` does.
abbrev drivers : Drivers
drivers = record {
  ahci_read = λ i lba. none;
  ide_read = λ i lba. none;
  nvme_read = λ i lba. none;
  usb_read = λ i lba. if i == 3 then read lba else none;
  nvme_lba_size = λ i. none;
}

abbrev no_disks : Registry
no_disks = record {
  disks = replicate 8 clear_disk_info;
  backends = replicate 8 backend_none;
  disk_count = 0;
  sector_buffer = [];
  gpt_entry_buffer = replicate 4096 0;
  behind = [];
}

no_disks-IsValid : RegistryIsValid no_disks
no_disks-IsValid = record {
  slots = refl;
  backend_slots = refl;
  within = omega arith;
  tables = λ i h. absurd (omega arith);
}

storage_register_usb_disk-Extends_example :
    Extends no_disks (storage_register_usb_disk drivers 3 1000 512 no_disks)
storage_register_usb_disk-Extends_example =
    storage_register_usb_disk-Extends drivers 3 1000 512 no_disks no_disks-IsValid

abbrev boot_volume : BootVolumeHandoff
boot_volume = record {
  present = true;
  removable = true;
  fs_kind = boot_fs_fat32;
  block_size = 512;
  sector0_valid = true;
  block_count = 1000;
  sector0 = fat_sector;
}

storage_register_boot_volume-Extends_example :
    Extends no_disks (storage_register_boot_volume (some boot_volume) no_disks)
storage_register_boot_volume-Extends_example =
    storage_register_boot_volume-Extends (some boot_volume) no_disks no_disks-IsValid

storage_read_disk_sector-boot_volume_example :
    let r' = storage_register_boot_volume (some boot_volume) no_disks in
    ((disk_at r' 0).present ≡ true) × (storage_read_disk_sector drivers r' 0 5 ≡ none)
storage_read_disk_sector-boot_volume_example =
    storage_read_disk_sector-boot_volume drivers boot_volume no_disks 5 no_disks-IsValid refl
      (omega arith)

-- One USB disk with one partition, at sector 8.
abbrev one_disk : Registry
one_disk = record no_disks {
  disks =
      record clear_disk_info {
        present = true;
        partition_count = 1;
        partitions = record no_partition { present = true; first_lba = 8 } ∷ [];
        usb_device_index = 3;
      }
      ∷ [];
  backends = backend_usb ∷ [];
  disk_count = 1;
}

one_disk_read : storage_read_partition_sector drivers one_disk 0 0 2 ≡ some zero_sector
unfolding storage_read_partition_sector disk_read_sector read_backend
one_disk_read = refl

storage_read_partition_sector_lem_example :
    let part = get_or (disk_at one_disk 0).partitions 0 no_partition in
    (storage_read_disk_sector drivers one_disk 0 ((part.first_lba + 2) % 2 ^ 64) ≡ some zero_sector)
    × (0 < one_disk.disk_count)
    × (0 < (disk_at one_disk 0).partition_count)
    × (part.present ≡ true)
storage_read_partition_sector_lem_example =
    storage_read_partition_sector_lem drivers one_disk 0 0 2 one_disk_read

register_ata_disk-Extends_example :
    Extends no_disks (register_ahci_disk drivers zero_sector no_disks)
    × Extends no_disks (register_ide_disk drivers zero_sector no_disks)
register_ata_disk-Extends_example =
    register_ata_disk-Extends drivers zero_sector no_disks no_disks-IsValid
