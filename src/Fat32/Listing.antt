-- ===== src/Fat32/Listing.antt =====
-- fat32.cpp: the directory listing of fat32_list_dir. The outer `none` means that the fuel ran out.
use schwarz_kernel.Prelude.{
  ℕ, zero, suc, ◌+◌, ◌%◌, ◌^◌, Bool, true, false, Option, none, some, List, [], ◌∷◌, ◌++◌, ◌==◌,
  leb, has_bit, if◌then◌else◌, byte_at, take, drop, length,
}
use schwarz_kernel.Fat32.Names.{
  FatDirEntry83, dir_entry, is_lfn_entry, is_directory, entry_name_to_text,
}
use schwarz_kernel.Fat32.LongName.{long_entry, decode_lfn_entry, clear_lfn_state}
use schwarz_kernel.Fat32.Volume.{Fat32Mount, first_sector_of_cluster, in_chain, read_fat_entry}
use schwarz_kernel.Fat32.Directory.{no_long_name}

-- `VfsDirEntry`, with `present` set
pub record VfsDirEntry : Type 0 where
  pub is_dir : Bool
  pub size : ℕ
  pub name : List ℕ

-- How a part of the listing ends: with `return true` and the entries, with `return false`, or by
-- going on with the state of the long name and the entries so far.
pub data Listing : Type 0 where
  listed : List VfsDirEntry → Listing
  failed : Listing
  next : List ℕ → List VfsDirEntry → Listing

unfoldable pub list_item : FatDirEntry83 → List ℕ → VfsDirEntry
list_item e long_name = record {
  is_dir = is_directory e;
  size = e.file_size;
  name = entry_name_to_text e long_name 64;
}

-- `entries[count]` is written only below `max_entries`.
unfoldable pub list_entry : ℕ → List ℕ → List ℕ → List VfsDirEntry → Listing
list_entry max_entries raw long_name out =
    let e = dir_entry raw in
    if byte_at raw 0 == 0x00
    then listed out
    else if byte_at raw 0 == 0xE5
    then next (clear_lfn_state long_name) out
    else if is_lfn_entry e
    then next (decode_lfn_entry (long_entry raw) long_name) out
    else if has_bit e.attr 3
    then next (clear_lfn_state long_name) out
    else if leb max_entries (length out)
    then listed out
    else next (clear_lfn_state long_name) (out ++ list_item e long_name ∷ [])

unfoldable pub list_entries : ℕ → ℕ → List ℕ → List ℕ → List VfsDirEntry → Listing
list_entries max_entries zero sector long_name out = next long_name out
list_entries max_entries (suc n) sector long_name out =
    elim (list_entry max_entries (take 32 sector) long_name out) [
      | listed o ↦ listed o
      | failed ↦ failed
      | next l o ↦ list_entries max_entries n (drop 32 sector) l o
    ]

module _ (read : ℕ → Option (List ℕ)) where
  unfoldable pub list_sectors : ℕ → ℕ → ℕ → List ℕ → List VfsDirEntry → Listing
  list_sectors max_entries zero lba long_name out = next long_name out
  list_sectors max_entries (suc n) lba long_name out = elim (read lba) [
    | none ↦ failed
    | some sector ↦ elim (list_entries max_entries 16 sector long_name out) [
      | listed o ↦ listed o
      | failed ↦ failed
      | next l o ↦ list_sectors max_entries n ((lba + 1) % 2 ^ 32) l o
    ]
  ]

module _ (read : ℕ → Option (List ℕ)) (m : Fat32Mount) where
  -- The loop over the chain: the entries, or `some none` for `return false`.
  unfoldable pub list_chain :
      ℕ → ℕ → ℕ → List ℕ → List VfsDirEntry → Option (Option (List VfsDirEntry))
  list_chain zero max_entries cluster long_name out = none
  list_chain (suc fuel) max_entries cluster long_name out = elim (in_chain cluster) [
    | false ↦ some (some out)
    | true ↦
        elim (list_sectors read max_entries m.sectors_per_cluster
          (first_sector_of_cluster m cluster) long_name out) [
            | listed o ↦ some (some o)
            | failed ↦ some none
            | next l o ↦ elim (read_fat_entry read m cluster) [
              | none ↦ some none
              | some c ↦ list_chain fuel max_entries c l o
            ]
          ]
  ]

  unfoldable pub list_directory : ℕ → ℕ → ℕ → Option (Option (List VfsDirEntry))
  list_directory fuel max_entries cluster = list_chain fuel max_entries cluster no_long_name []
