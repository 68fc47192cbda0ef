-- ===== src/Fat32/FileRead.antt =====
-- fat32.cpp: the copying loops of fat32_read_file.
use schwarz_kernel.Prelude.{
  ℕ, zero, suc, ◌+◌, ◌-◌, ◌%◌, ◌^◌, true, false, ◌&&◌, Option, none, some, List, ◌++◌, ltb, take,
  length, min,
}
use schwarz_kernel.Fat32.Volume.{Fat32Mount, first_sector_of_cluster, in_chain, read_fat_entry}

module _ (read : ℕ → Option (List ℕ)) (file_size : ℕ) where
  -- The loop over the sectors of a cluster: `out` is what the buffer holds, `written` its length.
  unfoldable pub copy_sectors : ℕ → ℕ → List ℕ → Option (List ℕ)
  copy_sectors zero lba out = some out
  copy_sectors (suc n) lba out = elim (ltb (length out) file_size) [
    | false ↦ some out
    | true ↦ elim (read lba) [
      | none ↦ none
      | some sector ↦
          copy_sectors n ((lba + 1) % 2 ^ 32)
            (out ++ take (min (file_size - length out) 512) sector)
    ]
  ]

module _ (read : ℕ → Option (List ℕ)) (m : Fat32Mount) (file_size : ℕ) where
  -- The loop over the chain; the outer `none` means that the fuel ran out, the inner `return false`.
  unfoldable pub copy_chain : ℕ → ℕ → List ℕ → Option (Option (List ℕ))
  copy_chain zero cluster out = none
  copy_chain (suc fuel) cluster out = elim (in_chain cluster && ltb (length out) file_size) [
    | false ↦ some (some out)
    | true ↦
        elim (copy_sectors read file_size m.sectors_per_cluster (first_sector_of_cluster m cluster)
          out) [
            | none ↦ some none
            | some o ↦ elim (read_fat_entry read m cluster) [
              | none ↦ some none
              | some c ↦ copy_chain fuel c o
            ]
          ]
  ]
