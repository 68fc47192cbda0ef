-- ===== src/Fat32/Mount.antt =====
-- fat32.cpp: fat32_try_mount and the operations on a mounted drive, which find the mount by the
-- drive's letter.
use schwarz_kernel.Prelude.{
  ℕ, ◌+◌, ◌-◌, ◌*◌, Bool, true, not, ◌&&◌, ◌||◌, Option, none, some, List, [], ◌∷◌, ◌==◌, ltb, leb,
  if◌then◌else◌, byte_at, le16, le32, take, drop, set, get_or, length, codes, copy_cstr, replicate,
}
use schwarz_kernel.Storage.Disk.{no_partition}
use schwarz_kernel.Storage.Registry.{
  Drivers, Registry, storage_get_disk, storage_read_disk_sector, storage_read_partition_sector,
}
use schwarz_kernel.Fat32.Names.{FatDirEntry83, entry_cluster, is_directory, c_text, trim_spaces}
use schwarz_kernel.Fat32.Volume.{Fat32Mount, read_volume_sector}
use schwarz_kernel.Fat32.Directory.{Resolved, missing, root, entry, resolve_path}
use schwarz_kernel.Fat32.Listing.{VfsDirEntry, list_directory}
use schwarz_kernel.Fat32.FileRead.{copy_chain}

-- `VfsDriveInfo`, with `present` set
pub record VfsDriveInfo : Type 0 where
  pub letter : ℕ
  pub disk_index : ℕ
  pub partition_index : Option ℕ
  pub filesystem : List ℕ
  pub label : List ℕ

-- `g_mounts`: a slot is `none` where `present` is false.
abbrev pub Mounts : Type 0
Mounts = List (Option Fat32Mount)

abbrev pub no_mounts : Mounts
no_mounts = replicate 8 none

-- The first sector of the volume and where it starts, with the source's checks on the way.
unfoldable pub boot_sector : Drivers → Registry → ℕ → Option ℕ → Option (List ℕ × ℕ)
boot_sector v r disk_index (some p) = elim (storage_get_disk r disk_index) [
  | none ↦ none
  | some disk ↦
      let part = get_or disk.partitions p no_partition in
      if not (ltb p disk.partition_count)
        || not part.present
        || not (byte_at part.filesystem 0 == b'F')
      then none
      else elim (storage_read_partition_sector v r disk_index p 0) [
        | none ↦ none
        | some sector ↦ some (sector, part.first_lba)
      ]
]
boot_sector v r disk_index none = elim (storage_get_disk r disk_index) [
  | none ↦ none
  | some disk ↦
      if not (byte_at disk.filesystem 0 == b'F')
      then none
      else elim (storage_read_disk_sector v r disk_index 0) [
        | none ↦ none
        | some sector ↦ some (sector, 0)
      ]
]

-- The checks on the boot sector.
unfoldable pub is_fat32_boot_sector : List ℕ → Bool
is_fat32_boot_sector s =
    le16 s 11 == 512 && not (le32 s 36 == 0 || ltb (le32 s 44) 2 || byte_at s 13 == 0)

unfoldable pub make_mount : ℕ → Option ℕ → List ℕ → ℕ → Fat32Mount
make_mount disk_index partition_index s base_lba = record {
  disk_index = disk_index;
  partition_index = partition_index;
  base_lba = base_lba;
  bytes_per_sector = le16 s 11;
  sectors_per_cluster = byte_at s 13;
  reserved_sector_count = le16 s 14;
  fat_count = byte_at s 16;
  sectors_per_fat = le32 s 36;
  root_cluster = le32 s 44;
  fat_start_lba = le16 s 14;
  data_start_lba = le16 s 14 + byte_at s 16 * le32 s 36;
}

unfoldable pub volume_label : List ℕ → List ℕ
volume_label s = elim (trim_spaces (c_text (take 11 (drop 71 s)))) [
  | [] ↦ copy_cstr (codes "NO_LABEL") 16
  | c ∷ cs ↦ copy_cstr (c ∷ cs) 16
]

-- A drive letter outside 'C' to 'J' has no slot.
unfoldable pub mount_slot : ℕ → Option ℕ
mount_slot letter = if ltb letter b'C' || leb 8 (letter - b'C') then none else some (letter - b'C')

unfoldable pub fat32_try_mount :
    Drivers → Registry → ℕ → Option ℕ → ℕ → Mounts → Option (VfsDriveInfo × Mounts)
fat32_try_mount v r disk_index partition_index letter mounts =
    elim (boot_sector v r disk_index partition_index) [
      | none ↦ none
      | some (sector, base_lba) ↦
          if not (is_fat32_boot_sector sector) then none else elim (mount_slot letter) [
            | none ↦ none
            | some i ↦ some (
              record {
                letter = letter;
                disk_index = disk_index;
                partition_index = partition_index;
                filesystem = copy_cstr (codes "FAT32") 16;
                label = volume_label sector;
              },
              set mounts i (some (make_mount disk_index partition_index sector base_lba)),
            )
          ]
    ]

unfoldable pub mount_for_drive : Mounts → VfsDriveInfo → Option Fat32Mount
mount_for_drive mounts drive = elim (mount_slot drive.letter) [
  | none ↦ none
  | some i ↦ get_or mounts i none
]

-- `VfsPathInfo`, with `exists` set
pub record VfsPathInfo : Type 0 where
  pub is_dir : Bool
  pub size : ℕ

unfoldable pub path_info : Resolved → Option VfsPathInfo
path_info missing = none
path_info root = some (record { is_dir = true; size = 0 })
path_info (entry e) = some (record { is_dir = is_directory e; size = e.file_size })

-- The cluster to list: that of the root or of a directory.
unfoldable pub directory_cluster : Fat32Mount → Resolved → Option ℕ
directory_cluster m missing = none
directory_cluster m root = some m.root_cluster
directory_cluster m (entry e) = if is_directory e then some (entry_cluster e) else none

-- The file to read: an entry that is no directory and fits the buffer.
unfoldable pub file_entry : ℕ → Resolved → Option FatDirEntry83
file_entry buffer_size missing = none
file_entry buffer_size root = none
file_entry buffer_size (entry e) =
    if is_directory e then none else if ltb buffer_size e.file_size then none else some e

-- `return written == file_size`
unfoldable pub complete : ℕ → Option (List ℕ) → Option (List ℕ)
complete file_size none = none
complete file_size (some out) = if length out == file_size then some out else none

-- The operations on a drive: the outer `none` means that the fuel ran out, the inner one that the
-- source returns `false`.
module _ (v : Drivers) (r : Registry) (mounts : Mounts) (fuel : ℕ) where
  unfoldable pub fat32_stat_path : VfsDriveInfo → List ℕ → Option (Option VfsPathInfo)
  fat32_stat_path drive subpath = elim (mount_for_drive mounts drive) [
    | none ↦ some none
    | some m ↦ elim (resolve_path (read_volume_sector v r m) m fuel subpath) [
      | none ↦ none
      | some res ↦ some (path_info res)
    ]
  ]

  unfoldable pub fat32_list_dir : VfsDriveInfo → List ℕ → ℕ → Option (Option (List VfsDirEntry))
  fat32_list_dir drive subpath max_entries = elim (mount_for_drive mounts drive) [
    | none ↦ some none
    | some m ↦
        if max_entries == 0
        then some none
        else elim (resolve_path (read_volume_sector v r m) m fuel subpath) [
          | none ↦ none
          | some res ↦ elim (directory_cluster m res) [
            | none ↦ some none
            | some c ↦ list_directory (read_volume_sector v r m) m fuel max_entries c
          ]
        ]
  ]

  unfoldable pub fat32_read_file : VfsDriveInfo → List ℕ → ℕ → Option (Option (List ℕ))
  fat32_read_file drive subpath buffer_size = elim (mount_for_drive mounts drive) [
    | none ↦ some none
    | some m ↦ elim (resolve_path (read_volume_sector v r m) m fuel subpath) [
      | none ↦ none
      | some res ↦ elim (file_entry buffer_size res) [
        | none ↦ some none
        | some e ↦
            elim (copy_chain (read_volume_sector v r m) m e.file_size fuel (entry_cluster e) []) [
              | none ↦ none
              | some out ↦ some (complete e.file_size out)
            ]
      ]
    ]
  ]
