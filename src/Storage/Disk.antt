-- ===== src/Storage/Disk.antt =====
-- storage.h: the disk and partition records.
use schwarz_kernel.Prelude.{ℕ, Bool, false, List, [], replicate, codes}

pub data PartitionStyle : Type 0 where
  style_none style_mbr style_gpt : PartitionStyle

pub data BootFsKind : Type 0 where
  boot_fs_unknown boot_fs_fat12 boot_fs_fat16 boot_fs_fat32 : BootFsKind

-- The text fields are the texts that the arrays hold.
pub record DiskPartitionInfo : Type 0 where
  pub present : Bool
  pub first_lba : ℕ
  pub sector_count : ℕ
  pub type_name : List ℕ
  pub filesystem : List ℕ

pub record DiskInfo : Type 0 where
  pub present : Bool
  pub removable : Bool
  pub sector_size : ℕ
  pub sector_count : ℕ
  pub partition_style : PartitionStyle
  pub name : List ℕ
  pub transport : List ℕ
  pub filesystem : List ℕ
  pub partition_count : ℕ
  pub partitions : List DiskPartitionInfo
  pub usb_device_index : ℕ

abbrev pub no_partition : DiskPartitionInfo
no_partition = record {
  present = false;
  first_lba = 0;
  sector_count = 0;
  type_name = [];
  filesystem = [];
}

-- `clear_disk_info`
unfoldable pub clear_disk_info : DiskInfo
clear_disk_info = record {
  present = false;
  removable = false;
  sector_size = 0;
  sector_count = 0;
  partition_style = style_none;
  name = [];
  transport = [];
  filesystem = [];
  partition_count = 0;
  partitions = replicate 8 no_partition;
  usb_device_index = 0;
}

-- `storage_partition_style_name`
unfoldable pub storage_partition_style_name : PartitionStyle → List ℕ
storage_partition_style_name style_mbr = codes "MBR"
storage_partition_style_name style_gpt = codes "GPT"
storage_partition_style_name style_none = codes "none"

-- `storage_boot_fs_name`
unfoldable pub storage_boot_fs_name : BootFsKind → List ℕ
storage_boot_fs_name boot_fs_fat12 = codes "FAT12"
storage_boot_fs_name boot_fs_fat16 = codes "FAT16"
storage_boot_fs_name boot_fs_fat32 = codes "FAT32"
storage_boot_fs_name boot_fs_unknown = codes "unknown"
