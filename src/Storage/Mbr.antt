-- ===== src/Storage/Mbr.antt =====
-- storage.cpp: the four entries of the master boot record.
use schwarz_kernel.Prelude.{
  ℕ, ◌+◌, ◌*◌, Bool, false, ◌||◌, List, [], ◌∷◌, ◌==◌, ltb, if◌then◌else◌, byte_at, le32,
}
use schwarz_kernel.Storage.Disk.{DiskInfo, style_mbr}
use schwarz_kernel.Storage.Scan.{add_partition, mbr_type_name}

-- The fields of `MbrPartitionEntry` that the scan reads.
pub record MbrEntry : Type 0 where
  pub type : ℕ
  pub first_lba : ℕ
  pub sector_count : ℕ

unfoldable pub mbr_entry : List ℕ → ℕ → MbrEntry
mbr_entry s i = record {
  type = byte_at s (446 + i * 16 + 4);
  first_lba = le32 s (446 + i * 16 + 8);
  sector_count = le32 s (446 + i * 16 + 12);
}

abbrev pub mbr_entries : List ℕ → List MbrEntry
mbr_entries s = mbr_entry s 0 ∷ mbr_entry s 1 ∷ mbr_entry s 2 ∷ mbr_entry s 3 ∷ []

-- The body of the loop: an entry is skipped, or recorded in the next slot.
unfoldable pub add_mbr_entry : MbrEntry → DiskInfo → DiskInfo
add_mbr_entry e d =
    if e.type == 0 || e.sector_count == 0
    then d
    else add_partition e.first_lba e.sector_count (mbr_type_name e.type) d

unfoldable pub add_mbr_entries : List MbrEntry → DiskInfo → DiskInfo
add_mbr_entries [] d = d
add_mbr_entries (e ∷ es) d =
    add_mbr_entries es (if ltb d.partition_count 8 then add_mbr_entry e d else d)

unfoldable pub detect_mbr_partitions : List ℕ → DiskInfo → DiskInfo
unfolding add_mbr_entries
detect_mbr_partitions sector0 d =
    add_mbr_entries (mbr_entries sector0)
      (record d { partition_style = style_mbr; partition_count = 0 })

-- The search for a protective entry.
unfoldable pub has_protective : List MbrEntry → Bool
has_protective [] = false
has_protective (e ∷ es) = e.type == 0xEE || has_protective es
