-- ===== src/Storage/Table.antt =====
-- storage.cpp: detect_partition_table and the file systems of the partitions.
use schwarz_kernel.Prelude.{
  ℕ, zero, suc, ◌+◌, Bool, true, false, not, Option, none, some, List, [], if◌then◌else◌, set,
  get_or, map, copy_cstr,
}
use schwarz_kernel.Storage.Disk.{
  DiskInfo, DiskPartitionInfo, PartitionStyle, style_none, style_gpt, no_partition,
}
use schwarz_kernel.Storage.FatKind.{
  FatKind, fat_name, has_boot_signature, detect_fat_boot_sector_kind,
}
use schwarz_kernel.Storage.Scan.{Scan}
use schwarz_kernel.Storage.Mbr.{mbr_entries, has_protective, detect_mbr_partitions}
use schwarz_kernel.Storage.Gpt.{detect_gpt_partitions}

-- `set_partition_filesystem`, where a kind was found.
unfoldable pub name_filesystem : Option FatKind → DiskPartitionInfo → DiskPartitionInfo
name_filesystem none p = p
name_filesystem (some k) p = record p { filesystem = copy_cstr (fat_name k) 16 }

abbrev pub is_gpt : PartitionStyle → Bool
is_gpt style_gpt = true
is_gpt _ = false

abbrev pub clear_present : DiskPartitionInfo → DiskPartitionInfo
clear_present p = record p { present = false }

unfoldable pub forget_partitions : DiskInfo → DiskInfo
forget_partitions d = record d {
  partitions = map clear_present d.partitions;
  partition_count = 0;
  partition_style = style_none;
}

module _ (read : ℕ → Option (List ℕ)) (behind : List ℕ) where
  -- One round of the loop over the partitions.
  unfoldable pub detect_filesystem : ℕ → Scan → Scan
  detect_filesystem i s =
      let part = record (get_or s.disk.partitions i no_partition) { filesystem = [] } in
      let put =
        λ (p : DiskPartitionInfo). record s.disk { partitions = set s.disk.partitions i p } in
      if not part.present then record s { disk = put part } else elim (read part.first_lba) [
        | none ↦ record s { disk = put part }
        | some sector ↦ record s {
          disk = put (name_filesystem (detect_fat_boot_sector_kind sector) part);
          sector_buffer = sector;
        }
      ]

  unfoldable pub detect_filesystems : ℕ → ℕ → Scan → Scan
  detect_filesystems zero i s = s
  detect_filesystems (suc n) i s = detect_filesystems n (i + 1) (detect_filesystem i s)

  unfoldable pub detect_partition_filesystems : Scan → Scan
  detect_partition_filesystems s = detect_filesystems s.disk.partition_count 0 s

  -- The last two calls: the MBR scan reads the shared sector buffer.
  unfoldable pub scan_mbr : Scan → Scan
  scan_mbr s =
      detect_partition_filesystems
        (record s { disk = detect_mbr_partitions s.sector_buffer s.disk })

  unfoldable pub scan_sector0 : Scan → Scan
  scan_sector0 s =
      if has_protective (mbr_entries s.sector_buffer)
      then (let g = detect_gpt_partitions read behind s in
          if is_gpt g.disk.partition_style then detect_partition_filesystems g else scan_mbr g)
      else scan_mbr s

  unfoldable pub detect_partition_table : Scan → Scan
  unfolding forget_partitions
  detect_partition_table s =
      let s' = record s { disk = forget_partitions s.disk } in
      elim (read 0) [
        | none ↦ s'
        | some sector ↦
            let s'' = record s' { sector_buffer = sector } in
            if not (has_boot_signature sector) then s'' else scan_sector0 s''
      ]
