-- ===== src/Storage/Registry.antt =====
-- storage.cpp: the table of disks, reading a sector of one, and the registration of USB disks and of
-- the boot volume.
use schwarz_kernel.Prelude.{
  ℕ, ◌+◌, ◌%◌, ◌^◌, Bool, true, not, Option, none, some, List, [], ◌∷◌, ◌++◌, ltb, ◌==◌,
  if◌then◌else◌, set, get_or, codes, copy_cstr,
}
use schwarz_kernel.Storage.Disk.{
  DiskInfo, no_partition, clear_disk_info, BootFsKind, boot_fs_unknown, boot_fs_fat12,
  boot_fs_fat16, boot_fs_fat32,
}
use schwarz_kernel.Storage.FatKind.{
  FatKind, fat12, fat16, fat32, fat_name, detect_fat_boot_sector_kind,
}
use schwarz_kernel.Storage.Table.{detect_partition_table}

pub data DiskBackend : Type 0 where
  backend_none backend_ahci backend_ide backend_nvme backend_usb : DiskBackend

-- The drivers behind a disk, by the slot of the disk (for USB, by the USB device): a read of one
-- sector gives its bytes or fails. `nvme_lba_size` is `none` where the controller is not mapped.
pub record Drivers : Type 0 where
  pub ahci_read : ℕ → ℕ → Option (List ℕ)
  pub ide_read : ℕ → ℕ → Option (List ℕ)
  pub nvme_read : ℕ → ℕ → Option (List ℕ)
  pub usb_read : ℕ → ℕ → Option (List ℕ)
  pub nvme_lba_size : ℕ → Option ℕ

-- `g_disks`, `g_disk_backends`, `g_disk_count` and the two shared buffers; `behind` is the memory
-- that follows the second.
pub record Registry : Type 0 where
  pub disks : List DiskInfo
  pub backends : List DiskBackend
  pub disk_count : ℕ
  pub sector_buffer : List ℕ
  pub gpt_entry_buffer : List ℕ
  pub behind : List ℕ

abbrev pub disk_at : Registry → ℕ → DiskInfo
disk_at r i = get_or r.disks i clear_disk_info

unfoldable pub nvme_checked : Option ℕ → Option (List ℕ) → Option (List ℕ)
nvme_checked none data' = none
nvme_checked (some size) data' = if size == 512 then data' else none

unfoldable pub read_backend : Drivers → DiskBackend → ℕ → ℕ → ℕ → Option (List ℕ)
unfolding nvme_checked
read_backend v backend_ahci index device lba = v.ahci_read index lba
read_backend v backend_ide index device lba = v.ide_read index lba
read_backend v backend_nvme index device lba =
    nvme_checked (v.nvme_lba_size index) (v.nvme_read index lba)
read_backend v backend_usb index device lba = v.usb_read device lba
read_backend v backend_none index device lba = none

-- `disk_read_sector`, on the disk in slot `index`
unfoldable pub disk_read_sector : Drivers → Registry → ℕ → ℕ → Option (List ℕ)
disk_read_sector v r index lba =
    if not (ltb index r.disk_count)
    then none
    else read_backend v (get_or r.backends index backend_none) index
        (disk_at r index).usb_device_index lba

unfoldable pub storage_get_disk : Registry → ℕ → Option DiskInfo
storage_get_disk r index = if not (ltb index r.disk_count) then none else some (disk_at r index)

unfoldable pub storage_read_disk_sector : Drivers → Registry → ℕ → ℕ → Option (List ℕ)
storage_read_disk_sector v r index lba =
    if not (ltb index r.disk_count)
    then none
    else if not (disk_at r index).present
    then none
    else disk_read_sector v r index lba

unfoldable pub storage_read_partition_sector : Drivers → Registry → ℕ → ℕ → ℕ → Option (List ℕ)
storage_read_partition_sector v r index partition rel_lba =
    let disk = disk_at r index in
    let part = get_or disk.partitions partition no_partition in
    if not (ltb index r.disk_count)
    then none
    else if not disk.present
    then none
    else if not (ltb partition disk.partition_count)
    then none
    else if not part.present
    then none
    else disk_read_sector v r index ((part.first_lba + rel_lba) % 2 ^ 64)

-- `fill_disk_name`
unfoldable pub disk_name : ℕ → List ℕ
disk_name index = codes "disk" ++ (b'0' + index % 10) ∷ []

-- The record of a USB disk before its scan.
unfoldable pub usb_disk : ℕ → ℕ → ℕ → ℕ → DiskInfo
usb_disk slot device sector_count sector_size = record clear_disk_info {
  name = disk_name slot;
  transport = copy_cstr (codes "USB") 16;
  removable = true;
  sector_size = sector_size;
  sector_count = sector_count;
  usb_device_index = device;
}

-- The next slot taken by a disk.
unfoldable pub append_disk : DiskInfo → DiskBackend → Registry → Registry
append_disk d b r = record r {
  disks = set r.disks r.disk_count d;
  backends = set r.backends r.disk_count b;
  disk_count = r.disk_count + 1;
}

-- `detect_partition_table` on the disk in slot `i`, then `present = true`.
unfoldable pub scan_disk : Drivers → ℕ → Registry → Registry
scan_disk v i r =
    let s = detect_partition_table (disk_read_sector v r i) r.behind (record {
      disk = disk_at r i;
      sector_buffer = r.sector_buffer;
      gpt_entry_buffer = r.gpt_entry_buffer;
    }) in
    record r {
      disks = set r.disks i (record s.disk { present = true });
      sector_buffer = s.sector_buffer;
      gpt_entry_buffer = s.gpt_entry_buffer;
    }

unfoldable pub storage_register_usb_disk : Drivers → ℕ → ℕ → ℕ → Registry → Registry
storage_register_usb_disk v device sector_count sector_size r =
    if not (ltb r.disk_count 8)
    then r
    else scan_disk v r.disk_count
        (append_disk (usb_disk r.disk_count device sector_count sector_size) backend_usb r)

-- `BootVolumeHandoff`
pub record BootVolumeHandoff : Type 0 where
  pub present : Bool
  pub removable : Bool
  pub fs_kind : BootFsKind
  pub block_size : ℕ
  pub sector0_valid : Bool
  pub block_count : ℕ
  pub sector0 : List ℕ

unfoldable pub boot_kind : BootFsKind → Option FatKind
boot_kind boot_fs_fat12 = some fat12
boot_kind boot_fs_fat16 = some fat16
boot_kind boot_fs_fat32 = some fat32
boot_kind boot_fs_unknown = none

unfoldable pub handoff_kind : BootVolumeHandoff → Option FatKind
handoff_kind h = elim (boot_kind h.fs_kind) [
  | some k ↦ some k
  | none ↦ if h.sector0_valid then detect_fat_boot_sector_kind h.sector0 else none
]

abbrev pub kind_text : Option FatKind → List ℕ
kind_text none = []
kind_text (some k) = copy_cstr (fat_name k) 16

unfoldable pub boot_disk : BootVolumeHandoff → DiskInfo
boot_disk h = record clear_disk_info {
  present = true;
  name = copy_cstr (codes "boot") 16;
  transport = copy_cstr (codes "UEFI Boot") 16;
  removable = h.removable;
  sector_size = if h.block_size == 0 then 512 else h.block_size;
  sector_count = h.block_count;
  filesystem = kind_text (handoff_kind h);
}

unfoldable pub storage_register_boot_volume : Option BootVolumeHandoff → Registry → Registry
storage_register_boot_volume none r = r
storage_register_boot_volume (some h) r =
    if not h.present
    then r
    else if not (ltb r.disk_count 8)
    then r
    else append_disk (boot_disk h) backend_none r
