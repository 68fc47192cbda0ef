-- ===== src/Fat32/Tests.antt =====
-- A small volume, and the theorems at concrete inputs.
use schwarz_kernel.Prelude.{
  ℕ, ◌≤◌, ◌<◌, ◌≡◌, refl, ◌↔◌, inl, inr, true, Option, none, some, List, [], ◌∷◌, ◌++◌, ◌==◌,
  if◌then◌else◌, set, length, replicate, take, codes, map, arith, Bool-cases, eq_of_some, le16,
  le32,
}
use schwarz_kernel.Fat32.Names.{str_eq_ci, c_text, dir_entry, is_lfn_entry}
use schwarz_kernel.Fat32.LongName.{FatLongDirEntry, lfn_char, decode_lfn_entry}
use schwarz_kernel.Fat32.FilePath.{skip_separators, scan_component, next_component}
use schwarz_kernel.Fat32.Volume.{
  Fat32Mount, first_sector_of_cluster, is_end_of_chain, in_chain, read_fat_entry,
}
use schwarz_kernel.Fat32.Directory.{
  next, search_entry, search_entries, search_sectors, search_chain,
}
use schwarz_kernel.Fat32.Listing.{
  list_item, list_entry, list_entries, list_sectors, list_chain, list_directory,
}
use schwarz_kernel.Fat32.FileRead.{copy_chain}
use schwarz_kernel.Fat32.Compare.{SameText, str_eq_ci_iff}
use schwarz_kernel.Fat32.Truncation.{IsFull, units_of, decode_lfn_entry_truncates}
use schwarz_kernel.Fat32.Contents.{sectors_data, ChainHolds, chain_end, link, copy_chain_lem}
use schwarz_kernel.Fat32.Walks.{search_chain_cycle, length-list_directory-le}
use schwarz_kernel.Fat32.Components.{NoSeparator, next_component_lem}

str_eq_ci_iff_example :
    (str_eq_ci (codes "Ab.txt") (codes "aB.TXT") ≡ true)
    ↔ SameText (codes "Ab.txt") (codes "aB.TXT")
str_eq_ci_iff_example = str_eq_ci_iff (codes "Ab.txt") (codes "aB.TXT")

-- The last entry of a name, with its thirteen units; an entry before it has left text behind them.
abbrev first_part : FatLongDirEntry
first_part = record { order = 1; name1 = codes "a lon"; name2 = codes "g file"; name3 = codes " n" }

abbrev second_part_read : List ℕ
second_part_read = set (set (replicate 256 0) 13 b'a') 14 b'm'

first_part-IsFull : IsFull first_part
first_part-IsFull = record {
  five = refl;
  six = refl;
  two = refl;
  proper1 = ground arith;
  proper2 = ground arith;
  proper3 = ground arith;
}

decode_lfn_entry_truncates_example :
    c_text (decode_lfn_entry first_part second_part_read) ≡ map lfn_char (units_of first_part)
decode_lfn_entry_truncates_example =
    decode_lfn_entry_truncates first_part second_part_read first_part-IsFull refl refl

-- Reserved sectors 0 and 1, the table in sector 2, clusters of one sector from sector 3 on.
abbrev volume : Fat32Mount
volume = record {
  disk_index = 0;
  partition_index = none;
  base_lba = 0;
  bytes_per_sector = 512;
  sectors_per_cluster = 1;
  reserved_sector_count = 2;
  fat_count = 1;
  sectors_per_fat = 1;
  root_cluster = 2;
  fat_start_lba = 2;
  data_start_lba = 3;
}

-- Cluster 2 ends a chain.
abbrev fat_sector : List ℕ
fat_sector = set (set (set (set (replicate 512 0) 8 0xFF) 9 0xFF) 10 0xFF) 11 0x0F

abbrev file_sector : List ℕ
file_sector = replicate 512 65

abbrev read : ℕ → Option (List ℕ)
read lba = if lba == 2 then some fat_sector else some file_sector

read_sectors : (lba : ℕ) (sector : List ℕ) → read lba ≡ some sector → length sector ≡ 512
read_sectors lba sector e = elim (Bool-cases (lba == 2)) [
  | inl z ↦ let e' : some fat_sector ≡ some sector = rw z at e in rw (← eq_of_some e') refl
  | inr n ↦ let e' : some file_sector ≡ some sector = rw n at e in rw (← eq_of_some e') refl
]

cluster_2_data : sectors_data read 1 (first_sector_of_cluster volume 2) ≡ some file_sector
unfolding sectors_data first_sector_of_cluster
cluster_2_data = refl

cluster_2_next : read_fat_entry read volume 2 ≡ some 0x0FFFFFFF
unfolding read_fat_entry le32 le16
cluster_2_next = refl

one_cluster : ChainHolds read volume 2 file_sector
unfolding in_chain is_end_of_chain
one_cluster =
    link 0x0FFFFFFF file_sector [] refl cluster_2_data cluster_2_next refl (chain_end refl)

copy_chain_lem_example : copy_chain read volume 100 101 2 [] ≡ some (some (take 100 file_sector))
copy_chain_lem_example =
    copy_chain_lem read volume 100 read_sectors (omega arith) one_cluster (omega arith)

-- A directory cluster whose entries are all deleted, linked to itself in the table.
abbrev loop_fat : List ℕ
loop_fat = set (replicate 512 0) 8 2

abbrev deleted_sector : List ℕ
deleted_sector = replicate 512 0xE5

abbrev loop_read : ℕ → Option (List ℕ)
loop_read lba = if lba == 2 then some loop_fat else some deleted_sector

loop_next : read_fat_entry loop_read volume 2 ≡ some 2
unfolding read_fat_entry le32 le16
loop_next = refl

loop_in_chain : in_chain 2 ≡ true
unfolding in_chain is_end_of_chain
loop_in_chain = refl

loop_goes_on :
    (l : List ℕ)
    → (l' : List ℕ) × (search_sectors loop_read (codes "A") 1 (first_sector_of_cluster volume 2) l
        ≡ next l')
unfolding search_sectors search_entries search_entry first_sector_of_cluster
loop_goes_on l = (_, refl)

search_chain_cycle_example : search_chain loop_read volume 1000 (codes "A") 2 [] ≡ none
search_chain_cycle_example =
    search_chain_cycle loop_read volume (codes "A") 2 loop_in_chain loop_next loop_goes_on 1000 []

-- The root directory with the two files A and B, and an end mark.
abbrev root_sector : List ℕ
root_sector =
    b'A' ∷ replicate 10 32
    ++ 0x20 ∷ replicate 20 0
    ++ b'B' ∷ replicate 10 32
    ++ 0x20 ∷ replicate 20 0
    ++ replicate 448 0

abbrev root_read : ℕ → Option (List ℕ)
root_read lba = some root_sector

-- Listing one entry at most gives the first.
root_listing :
    list_directory root_read volume 1 1 2
    ≡ some (some (list_item (dir_entry (take 32 root_sector)) (replicate 256 0) ∷ []))
unfolding list_directory list_chain list_sectors list_entries list_entry in_chain is_end_of_chain
    is_lfn_entry dir_entry
root_listing = refl

length-list_directory-le_example :
    length (list_item (dir_entry (take 32 root_sector)) (replicate 256 0) ∷ []) ≤ 1
length-list_directory-le_example = length-list_directory-le root_read volume 1 1 2 root_listing

next_component_docs : next_component (codes "/docs//a") 64 ≡ some (codes "docs", codes "a")
unfolding next_component skip_separators scan_component
next_component_docs = refl

next_component_lem_example :
    (0 < length (codes "docs"))
    × NoSeparator (codes "docs")
    × (length (codes "docs") < 64)
    × (length (codes "a") < length (codes "/docs//a"))
next_component_lem_example =
    next_component_lem (codes "/docs//a") 64 (omega arith) next_component_docs
