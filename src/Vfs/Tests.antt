-- ===== src/Vfs/Tests.antt =====
-- A USB disk that holds one FAT32 volume, and the theorems at concrete inputs.
use schwarz_kernel.Prelude.{
  ℕ, ◌≡◌, refl, true, none, some, List, [], ◌∷◌, ◌==◌, if◌then◌else◌, set, get_elem?, replicate,
  codes, le16, le32, copy_cstr,
}
use schwarz_kernel.Storage.Disk.{clear_disk_info}
use schwarz_kernel.Storage.Registry.{
  Drivers, Registry, backend_usb, disk_read_sector, read_backend, storage_get_disk,
  storage_read_disk_sector,
}
use schwarz_kernel.Fat32.Names.{upper_ascii}
use schwarz_kernel.Fat32.Mount.{
  VfsDriveInfo, no_mounts, boot_sector, is_fat32_boot_sector, fat32_try_mount, mount_slot,
  volume_label,
}
use schwarz_kernel.Vfs.Drives.{
  Vfs, try_mount, mount_partitions, mount_disk, mount_disks, vfs_init, find_drive_by_letter,
}
use schwarz_kernel.Vfs.Mounted.{VfsIsValid, vfs_init-VfsIsValid, find_drive_by_letter_lem}

-- 512 bytes a sector, one sector a cluster, 32 reserved, two tables of 1000 sectors, the text
-- `FAT32`.
abbrev boot : List ℕ
boot =
    set
      (set
        (set
          (set
            (set
              (set
                (set
                  (set
                    (set
                      (set (set (set (set (set (replicate 512 0) 510 0x55) 511 0xAA) 12 2) 13 1) 14
                        32)
                      16 2)
                    36 100)
                  44 2)
                32 0x40)
              82 b'F')
            83 b'A')
          84 b'T')
        85 b'3')
      86 b'2'

abbrev drivers : Drivers
drivers = record {
  ahci_read = λ i lba. none;
  ide_read = λ i lba. none;
  nvme_read = λ i lba. none;
  usb_read = λ i lba. if lba == 0 then some boot else none;
  nvme_lba_size = λ i. none;
}

abbrev one_disk : Registry
one_disk = record {
  disks = record clear_disk_info { present = true; filesystem = codes "FAT32" } ∷ [];
  backends = backend_usb ∷ [];
  disk_count = 1;
  sector_buffer = [];
  gpt_entry_buffer = [];
  behind = [];
}

abbrev mounted : Vfs
mounted = vfs_init drivers one_disk no_mounts

vfs_init-VfsIsValid_example : VfsIsValid mounted
vfs_init-VfsIsValid_example = vfs_init-VfsIsValid drivers one_disk no_mounts refl

abbrev drive_c : VfsDriveInfo
drive_c = record {
  letter = b'C';
  disk_index = 0;
  partition_index = none;
  filesystem = codes "FAT32";
  label = volume_label boot;
}

drive_c_mounted : get_elem? mounted.drives 0 ≡ some drive_c
unfolding vfs_init mount_disks mount_disk mount_partitions try_mount fat32_try_mount boot_sector
    is_fat32_boot_sector mount_slot storage_get_disk storage_read_disk_sector disk_read_sector
    read_backend le16 le32 clear_disk_info copy_cstr
drive_c_mounted = refl

lower_c : upper_ascii b'c' ≡ b'C'
unfolding upper_ascii
lower_c = refl

find_drive_by_letter_lem_example : find_drive_by_letter mounted.drives b'c' ≡ some drive_c
find_drive_by_letter_lem_example =
    find_drive_by_letter_lem mounted 0 b'c' (vfs_init-VfsIsValid drivers one_disk no_mounts refl)
      drive_c_mounted lower_c
