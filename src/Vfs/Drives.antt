-- ===== src/Vfs/Drives.antt =====
-- vfs.cpp: vfs_init, the search for a drive and the operations on paths. The drives are the first
-- `g_drive_count` slots of `g_drives`, all of them present.
use schwarz_kernel.Prelude.{
  ℕ, zero, suc, ◌+◌, not, ◌&&◌, Option, none, some, List, [], ◌∷◌, ◌++◌, ◌==◌, ltb, if◌then◌else◌,
  byte_at, get_or, get_elem?, length,
}
use schwarz_kernel.Storage.Disk.{DiskInfo, no_partition}
use schwarz_kernel.Storage.Registry.{Drivers, Registry, storage_get_disk}
use schwarz_kernel.Fat32.Names.{upper_ascii}
use schwarz_kernel.Fat32.FilePath.{skip_separators}
use schwarz_kernel.Fat32.Listing.{VfsDirEntry}
use schwarz_kernel.Fat32.Mount.{
  VfsDriveInfo, VfsPathInfo, Mounts, fat32_try_mount, fat32_stat_path, fat32_list_dir,
  fat32_read_file,
}

-- `g_drives` and fat32.cpp's `g_mounts`, with the next letter while `vfs_init` runs.
pub record Vfs : Type 0 where
  pub drives : List VfsDriveInfo
  pub mounts : Mounts
  pub next_letter : ℕ

abbrev pub no_drives : Mounts → Vfs
no_drives mounts = record { drives = []; mounts = mounts; next_letter = b'C' }

module _ (v : Drivers) (r : Registry) where
  -- `fat32_try_mount`, and the drive it adds.
  unfoldable pub try_mount : ℕ → Option ℕ → Vfs → Vfs
  try_mount disk_index partition_index s =
      elim (fat32_try_mount v r disk_index partition_index s.next_letter s.mounts) [
        | none ↦ s
        | some (info, mounts) ↦ record {
          drives = s.drives ++ info ∷ [];
          mounts = mounts;
          next_letter = s.next_letter + 1;
        }
      ]

  -- The inner loop, over the `n` partitions of a disk that are left.
  unfoldable pub mount_partitions : ℕ → DiskInfo → ℕ → ℕ → Vfs → Vfs
  mount_partitions disk_index disk zero part_index s = s
  mount_partitions disk_index disk (suc n) part_index s =
      mount_partitions disk_index disk n (part_index + 1) (
        if ltb (length s.drives) 8 && (get_or disk.partitions part_index no_partition).present
        then try_mount disk_index (some part_index) s
        else s)

  -- The body of the outer loop.
  unfoldable pub mount_disk : ℕ → Vfs → Vfs
  mount_disk disk_index s = elim (storage_get_disk r disk_index) [
    | none ↦ s
    | some disk ↦
        if not disk.present
        then s
        else if disk.partition_count == 0
        then try_mount disk_index none s
        else mount_partitions disk_index disk disk.partition_count 0 s
  ]

  unfoldable pub mount_disks : ℕ → ℕ → Vfs → Vfs
  mount_disks zero disk_index s = s
  mount_disks (suc n) disk_index s =
      mount_disks n (disk_index + 1)
        (if ltb (length s.drives) 8 then mount_disk disk_index s else s)

  -- The mounts of an earlier call stay until their slot is mounted again.
  unfoldable pub vfs_init : Mounts → Vfs
  vfs_init mounts = mount_disks r.disk_count 0 (no_drives mounts)

unfoldable pub vfs_get_drive : Vfs → ℕ → Option VfsDriveInfo
vfs_get_drive s index = get_elem? s.drives index

unfoldable pub find_drive_by_letter : List VfsDriveInfo → ℕ → Option VfsDriveInfo
find_drive_by_letter [] letter = none
find_drive_by_letter (d ∷ ds) letter =
    if upper_ascii d.letter == upper_ascii letter then some d else find_drive_by_letter ds letter

-- The drive and the path on it.
unfoldable pub parse_drive_path : List VfsDriveInfo → List ℕ → Option (VfsDriveInfo × List ℕ)
parse_drive_path drives [] = none
parse_drive_path drives (c ∷ []) = none
parse_drive_path drives (c ∷ colon ∷ path) =
    if not (colon == b':') then none else elim (find_drive_by_letter drives c) [
      | none ↦ none
      | some d ↦ some (d, skip_separators path)
    ]

-- The drive and subpath where the path names a drive of a known file system.
unfoldable pub fat_path : List VfsDriveInfo → List ℕ → Option (VfsDriveInfo × List ℕ)
fat_path drives path = elim (parse_drive_path drives path) [
  | none ↦ none
  | some (d, subpath) ↦ if byte_at d.filesystem 0 == b'F' then some (d, subpath) else none
]

module _ (v : Drivers) (r : Registry) (fuel : ℕ) where
  unfoldable pub vfs_list_dir : Vfs → List ℕ → ℕ → Option (Option (List VfsDirEntry))
  vfs_list_dir s path max_entries = elim (fat_path s.drives path) [
    | none ↦ some none
    | some (d, subpath) ↦ fat32_list_dir v r s.mounts fuel d subpath max_entries
  ]

  unfoldable pub vfs_read_file : Vfs → List ℕ → ℕ → Option (Option (List ℕ))
  vfs_read_file s path buffer_size = elim (fat_path s.drives path) [
    | none ↦ some none
    | some (d, subpath) ↦ fat32_read_file v r s.mounts fuel d subpath buffer_size
  ]

  unfoldable pub vfs_stat : Vfs → List ℕ → Option (Option VfsPathInfo)
  vfs_stat s path = elim (fat_path s.drives path) [
    | none ↦ some none
    | some (d, subpath) ↦ fat32_stat_path v r s.mounts fuel d subpath
  ]
