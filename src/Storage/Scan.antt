-- ===== src/Storage/Scan.antt =====
-- storage.cpp: what the scan of one disk reads and writes, and how it records a partition.
use schwarz_kernel.Prelude.{ℕ, ◌+◌, List, [], true, set, copy_cstr, codes, ◌==◌, if◌then◌else◌}
use schwarz_kernel.Storage.Disk.{DiskInfo}

-- The disk's record and the two static buffers that every scan shares.
pub record Scan : Type 0 where
  pub disk : DiskInfo
  pub sector_buffer : List ℕ
  pub gpt_entry_buffer : List ℕ

-- `partitions[partition_count++]`, filled as both detectors fill it (`set_partition_name` copies
-- into 32 bytes). The slot keeps nothing of what it held.
unfoldable pub add_partition : ℕ → ℕ → List ℕ → DiskInfo → DiskInfo
add_partition first_lba sector_count type_name d = record d {
  partition_count = d.partition_count + 1;
  partitions = set d.partitions d.partition_count (record {
    present = true;
    first_lba = first_lba;
    sector_count = sector_count;
    type_name = copy_cstr type_name 32;
    filesystem = [];
  });
}

-- `mbr_type_name`
unfoldable pub mbr_type_name : ℕ → List ℕ
mbr_type_name t =
    if t == 0x01
    then codes "FAT12"
    else if t == 0x04
    then codes "FAT16<32M"
    else if t == 0x06
    then codes "FAT16"
    else if t == 0x07
    then codes "NTFS/exFAT"
    else if t == 0x0B
    then codes "FAT32"
    else if t == 0x0C
    then codes "FAT32 LBA"
    else if t == 0x0E
    then codes "FAT16 LBA"
    else if t == 0x0F
    then codes "Extended"
    else if t == 0x82
    then codes "Linux swap"
    else if t == 0x83
    then codes "Linux"
    else if t == 0x8E
    then codes "Linux LVM"
    else if t == 0xA5
    then codes "BSD"
    else if t == 0xAF
    then codes "Apple HFS"
    else if t == 0xEE
    then codes "GPT protective"
    else codes "Unknown"
