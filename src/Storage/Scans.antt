-- ===== src/Storage/Scans.antt =====
-- The whole partition scan: how many partitions it may record, what the file systems are, and which
-- sector the MBR entries are taken from.
use schwarz_kernel.Prelude.{
  ℕ, zero, suc, ◌+◌, ◌≡◌, refl, ap, ◌∙◌, inl, inr, Option, List, [], ◌∷◌, ◌++◌, length, length-set,
  set, get_or, map, arith, Option-cases, min,
}
use schwarz_kernel.Storage.Disk.{DiskInfo, DiskPartitionInfo, style_mbr, style_gpt, no_partition}
use schwarz_kernel.Storage.FatKind.{detect_fat_boot_sector_kind}
use schwarz_kernel.Storage.Scan.{Scan}
use schwarz_kernel.Storage.Mbr.{mbr_entries, detect_mbr_partitions}
use schwarz_kernel.Storage.Gpt.{
  GptHeader, gpt_header, sectors_to_read, read_entries, scan_gpt_entries, detect_gpt_partitions,
}
use schwarz_kernel.Storage.Table.{
  name_filesystem, clear_present, detect_filesystem, detect_filesystems,
  detect_partition_filesystems, scan_mbr, scan_sector0, forget_partitions, detect_partition_table,
}
use schwarz_kernel.Storage.Record.{TableIsValid, add_mbr_entries-Fills, add_gpt_entries-Fills}

detect_mbr-TableIsValid :
    (s : List ℕ) (d : DiskInfo) → length d.partitions ≡ 8 → TableIsValid (detect_mbr_partitions s d)
unfolding detect_mbr_partitions
detect_mbr-TableIsValid s d h =
    (add_mbr_entries-Fills (mbr_entries s)
      (record d { partition_style = style_mbr; partition_count = 0 })
      (record { slots = h; within = omega arith })).valid

module _ (read : ℕ → Option (List ℕ)) (behind : List ℕ) where
  scan_gpt_entries-TableIsValid :
      (h : GptHeader) (s : Scan)
      → TableIsValid s.disk
      → TableIsValid (scan_gpt_entries read behind h s).disk
  unfolding scan_gpt_entries
  scan_gpt_entries-TableIsValid h s v =
      let size = h.partition_entry_size in
      let n = min h.partition_entry_count 32 in
      let out =
        read_entries read h.partition_entries_lba (sectors_to_read size n) 0 s.gpt_entry_buffer in
      ground (arith, (add_gpt_entries-Fills (out.0 ++ behind) size n 0 s.disk v).valid)

  detect_gpt-TableIsValid :
      (s : Scan) → TableIsValid s.disk → TableIsValid (detect_gpt_partitions read behind s).disk
  unfolding detect_gpt_partitions
  detect_gpt-TableIsValid s v = elim (Option-cases (read 1)) [
    | inl e ↦ rw (e, detect_gpt_partitions) v
    | inr (sector, e) ↦
        rw (e, detect_gpt_partitions)
          (ground (
            arith,
            scan_gpt_entries-TableIsValid (gpt_header sector)
                (record s {
                  disk = record s.disk { partition_style = style_gpt; partition_count = 0 };
                  sector_buffer = sector;
                })
                (record { slots = v.slots; within = omega arith }),
          ))
  ]

  detect_filesystem-TableIsValid :
      (i : ℕ) (s : Scan)
      → TableIsValid s.disk
      → TableIsValid (detect_filesystem read behind i s).disk
  unfolding detect_filesystem
  detect_filesystem-TableIsValid i s v = elim (Option-cases (read part.first_lba)) [
    | inl e ↦ rw (e, detect_filesystem) (ground (arith, put part))
    | inr (sector, e) ↦
        let named = name_filesystem (detect_fat_boot_sector_kind sector) part in
        rw (e, detect_filesystem) (ground (arith, put part, put named))
  ]
    where
      part : DiskPartitionInfo
      part = record (get_or s.disk.partitions i no_partition) { filesystem = [] }

      put :
          (p : DiskPartitionInfo)
          → TableIsValid (record s.disk { partitions = set s.disk.partitions i p })
      put p = record { slots = length-set s.disk.partitions i p ∙ v.slots; within = v.within }

  detect_filesystems-TableIsValid :
      (n i : ℕ) (s : Scan)
      → TableIsValid s.disk
      → TableIsValid (detect_filesystems read behind n i s).disk
  unfolding detect_filesystems
  detect_filesystems-TableIsValid zero i s v = v
  detect_filesystems-TableIsValid (suc n) i s v =
      detect_filesystems-TableIsValid n (i + 1) (detect_filesystem read behind i s)
        (detect_filesystem-TableIsValid i s v)

  scan_mbr-TableIsValid :
      (s : Scan) → length s.disk.partitions ≡ 8 → TableIsValid (scan_mbr read behind s).disk
  unfolding scan_mbr detect_partition_filesystems
  scan_mbr-TableIsValid s h =
      detect_filesystems-TableIsValid (detect_mbr_partitions s.sector_buffer s.disk).partition_count
        0 (record s { disk = detect_mbr_partitions s.sector_buffer s.disk })
        (detect_mbr-TableIsValid s.sector_buffer s.disk h)

  scan_sector0-TableIsValid :
      (s : Scan) → TableIsValid s.disk → TableIsValid (scan_sector0 read behind s).disk
  unfolding scan_sector0 detect_partition_filesystems
  scan_sector0-TableIsValid s v =
      let g = detect_gpt_partitions read behind s in
      let w = detect_gpt-TableIsValid s v in
      ground (
        arith,
        detect_filesystems-TableIsValid g.disk.partition_count 0 g w,
        scan_mbr-TableIsValid g w.slots,
        scan_mbr-TableIsValid s v.slots,
      )

  -- Whatever the disk holds and however its reads fail, a scan of a record with eight slots ends with
  -- eight slots and at most eight partitions recorded.
  pub detect_partition_table-TableIsValid :
      (s : Scan)
      → length s.disk.partitions ≡ 8
      → TableIsValid (detect_partition_table read behind s).disk
  unfolding detect_partition_table
  detect_partition_table-TableIsValid s h = elim (Option-cases (read 0)) [
    | inl e ↦ rw (e, detect_partition_table) forgotten
    | inr (sector, e) ↦
        let s' : Scan = record s { disk = forget_partitions s.disk; sector_buffer = sector } in
        rw (e, detect_partition_table)
          (ground (arith, forgotten, scan_sector0-TableIsValid s' forgotten))
  ]
    where
      length-map_clear : (ps : List DiskPartitionInfo) → length (map clear_present ps) ≡ length ps
      length-map_clear [] = refl
      length-map_clear (p ∷ ps) = ap suc (length-map_clear ps)

      forgotten : TableIsValid (forget_partitions s.disk)
      forgotten = record { slots = length-map_clear s.disk.partitions ∙ h; within = omega arith }
