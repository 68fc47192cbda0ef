-- ===== src/Fat32/Directory.antt =====
-- fat32.cpp: find_in_directory and resolve_path. The chain of clusters is followed on fuel; the
-- outer `none` of a search means that the fuel ran out.
use schwarz_kernel.Prelude.{
  ℕ, zero, suc, ◌+◌, ◌%◌, ◌^◌, true, false, Option, none, some, List, ◌==◌, has_bit, if◌then◌else◌,
  byte_at, take, drop, replicate, length,
}
use schwarz_kernel.Fat32.Names.{
  FatDirEntry83, dir_entry, is_lfn_entry, entry_cluster, entry_name_equals,
}
use schwarz_kernel.Fat32.LongName.{long_entry, decode_lfn_entry, clear_lfn_state}
use schwarz_kernel.Fat32.FilePath.{next_component}
use schwarz_kernel.Fat32.Volume.{Fat32Mount, first_sector_of_cluster, in_chain, read_fat_entry}

-- How a part of the search ends: with the entry, with `return false`, or by going on with the state
-- of the long name.
pub data Search : Type 0 where
  found : FatDirEntry83 → Search
  absent : Search
  next : List ℕ → Search

-- `char long_name[256]` after `clear_lfn_state`; the other bytes are not set, and not read before
-- they are written.
abbrev pub no_long_name : List ℕ
no_long_name = replicate 256 0

-- The body of the innermost loop, on the 32 bytes of an entry.
unfoldable pub search_entry : List ℕ → List ℕ → List ℕ → Search
search_entry component raw long_name =
    let entry = dir_entry raw in
    if byte_at raw 0 == 0x00
    then absent
    else if byte_at raw 0 == 0xE5
    then next (clear_lfn_state long_name)
    else if is_lfn_entry entry
    then next (decode_lfn_entry (long_entry raw) long_name)
    else if has_bit entry.attr 3
    then next (clear_lfn_state long_name)
    else if entry_name_equals entry long_name component
    then found entry
    else next (clear_lfn_state long_name)

-- The loop over the `n` entries of a sector that are left.
unfoldable pub search_entries : List ℕ → ℕ → List ℕ → List ℕ → Search
search_entries component zero sector long_name = next long_name
search_entries component (suc n) sector long_name =
    elim (search_entry component (take 32 sector) long_name) [
      | found e ↦ found e
      | absent ↦ absent
      | next l ↦ search_entries component n (drop 32 sector) l
    ]

module _ (read : ℕ → Option (List ℕ)) where
  -- The loop over the `n` sectors of a cluster that are left, from `lba` on.
  unfoldable pub search_sectors : List ℕ → ℕ → ℕ → List ℕ → Search
  search_sectors component zero lba long_name = next long_name
  search_sectors component (suc n) lba long_name = elim (read lba) [
    | none ↦ absent
    | some sector ↦ elim (search_entries component 16 sector long_name) [
      | found e ↦ found e
      | absent ↦ absent
      | next l ↦ search_sectors component n ((lba + 1) % 2 ^ 32) l
    ]
  ]

-- What `resolve_path` finds: no such path, the root, or an entry.
pub data Resolved : Type 0 where
  missing : Resolved
  root : Resolved
  entry : FatDirEntry83 → Resolved

module _ (read : ℕ → Option (List ℕ)) (m : Fat32Mount) where
  -- `find_in_directory` from a cluster on, with the long name read so far.
  unfoldable pub search_chain : ℕ → List ℕ → ℕ → List ℕ → Option (Option FatDirEntry83)
  search_chain zero component cluster long_name = none
  search_chain (suc fuel) component cluster long_name = elim (in_chain cluster) [
    | false ↦ some none
    | true ↦
        elim (search_sectors read component m.sectors_per_cluster
          (first_sector_of_cluster m cluster) long_name) [
            | found e ↦ some (some e)
            | absent ↦ some none
            | next l ↦ elim (read_fat_entry read m cluster) [
              | none ↦ some none
              | some c ↦ search_chain fuel component c l
            ]
          ]
  ]

  unfoldable pub find_in_directory : ℕ → ℕ → List ℕ → Option (Option FatDirEntry83)
  find_in_directory fuel start_cluster component =
      search_chain fuel component start_cluster no_long_name

  -- The loop over the components, on rounds: a path has no more components than characters.
  unfoldable pub resolve_from : ℕ → ℕ → List ℕ → ℕ → Resolved → Option Resolved
  resolve_from fuel zero path cluster last = some last
  resolve_from fuel (suc n) path cluster last = elim (next_component path 64) [
    | none ↦ some last
    | some (component, rest) ↦ elim (find_in_directory fuel cluster component) [
      | none ↦ none
      | some none ↦ some missing
      | some (some e) ↦ resolve_from fuel n rest (entry_cluster e) (entry e)
    ]
  ]

  unfoldable pub resolve_path : ℕ → List ℕ → Option Resolved
  resolve_path fuel subpath = resolve_from fuel (length subpath + 1) subpath m.root_cluster root
