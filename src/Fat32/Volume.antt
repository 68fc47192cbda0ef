-- ===== src/Fat32/Volume.antt =====
-- fat32.cpp: a mounted volume, its clusters and its allocation table.
use schwarz_kernel.Prelude.{
  ℕ, ◌+◌, ◌*◌, ◌/◌, ◌%◌, ◌^◌, Bool, not, ◌&&◌, Option, none, some, List, leb, le32, sub32,
}
use schwarz_kernel.Storage.Registry.{
  Drivers, Registry, storage_read_disk_sector, storage_read_partition_sector,
}

-- `partition_index` is `none` for the negative index of a volume without a partition table.
pub record Fat32Mount : Type 0 where
  pub disk_index : ℕ
  pub partition_index : Option ℕ
  pub base_lba : ℕ
  pub bytes_per_sector : ℕ
  pub sectors_per_cluster : ℕ
  pub reserved_sector_count : ℕ
  pub fat_count : ℕ
  pub sectors_per_fat : ℕ
  pub root_cluster : ℕ
  pub fat_start_lba : ℕ
  pub data_start_lba : ℕ

unfoldable pub read_volume_sector : Drivers → Registry → Fat32Mount → ℕ → Option (List ℕ)
read_volume_sector v r m rel_lba = elim m.partition_index [
  | some p ↦ storage_read_partition_sector v r m.disk_index p rel_lba
  | none ↦ storage_read_disk_sector v r m.disk_index ((m.base_lba + rel_lba) % 2 ^ 64)
]

-- The result is cut to uint32_t.
unfoldable pub first_sector_of_cluster : Fat32Mount → ℕ → ℕ
first_sector_of_cluster m cluster =
    (m.data_start_lba + sub32 cluster 2 * m.sectors_per_cluster) % 2 ^ 32

unfoldable pub is_end_of_chain : ℕ → Bool
is_end_of_chain cluster = leb 0x0FFFFFF8 cluster

-- The test of every loop over a chain.
unfoldable pub in_chain : ℕ → Bool
in_chain cluster = leb 2 cluster && not (is_end_of_chain cluster)

-- `read` reads a sector of the volume; `none` is the failure of that read.
unfoldable pub read_fat_entry : (ℕ → Option (List ℕ)) → Fat32Mount → ℕ → Option ℕ
read_fat_entry read m cluster = elim (read (m.fat_start_lba + cluster * 4 / m.bytes_per_sector)) [
  | none ↦ none
  | some sector ↦ some (le32 sector (cluster * 4 % m.bytes_per_sector) % 2 ^ 28)
]
