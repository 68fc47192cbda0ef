-- ===== src/Fat32/Walks.antt =====
-- How the walks over a directory end, and how many entries a listing gives.
use schwarz_kernel.Prelude.{
  ℕ, zero, suc, ◌+◌, ◌%◌, ◌^◌, ◌≤◌, ◌≡◌, refl, subst, inl, inr, true, Option, none, some, List, [],
  ◌∷◌, length, length-append, take, drop, arith, Bool-cases, Option-cases,
}
use schwarz_kernel.Fat32.Names.{dir_entry}
use schwarz_kernel.Fat32.Volume.{Fat32Mount, first_sector_of_cluster, in_chain, read_fat_entry}
use schwarz_kernel.Fat32.Directory.{next, search_sectors, search_chain, no_long_name}
use schwarz_kernel.Fat32.Listing
use schwarz_kernel.Fat32.Listing.{
  VfsDirEntry, list_item, list_entry, list_entries, list_sectors, list_chain, list_directory,
}

-- `find_in_directory` does not end on a directory cluster that the allocation table links to itself
-- and whose sectors neither hold the name nor an end mark: no amount of fuel is enough.
pub search_chain_cycle :
    (read : ℕ → Option (List ℕ)) (m : Fat32Mount) (component : List ℕ) (c : ℕ)
    → in_chain c ≡ true
    → read_fat_entry read m c ≡ some c
    → ((l : List ℕ)
        → (l' : List ℕ) × (search_sectors read component m.sectors_per_cluster
              (first_sector_of_cluster m c)
              l
            ≡ next l'))
    → (fuel : ℕ) (l : List ℕ) → search_chain read m fuel component c l ≡ none
unfolding search_chain
search_chain_cycle read m component c h t s zero l = refl
search_chain_cycle read m component c h t s (suc fuel) l =
    rw (h, (s l).1, t, search_chain) (search_chain_cycle read m component c h t s fuel (s l).0)

-- What a part of a listing gives stays within `max`.
abbrev Within : ℕ → Listing.Listing → Type 0
Within max (Listing.listed out) = length out ≤ max
Within max Listing.failed = Unit {0}
Within max (Listing.next l out) = length out ≤ max

list_entry-Within :
    (max : ℕ) (raw l : List ℕ) (out : List VfsDirEntry)
    → length out ≤ max
    → Within max (list_entry max raw l out)
unfolding list_entry
list_entry-Within max raw l out h =
    ground (arith, length-append out (list_item (dir_entry raw) l ∷ []))

-- Going on from a part that stays within `max`.
Within-then :
    (max : ℕ) (r : Listing.Listing) (k : List ℕ → List VfsDirEntry → Listing.Listing)
    → Within max r
    → ((l : List ℕ) (o : List VfsDirEntry) → length o ≤ max → Within max (k l o))
    → Within max (elim r [
      | Listing.listed o ↦ Listing.listed o
      | Listing.failed ↦ Listing.failed
      | Listing.next l o ↦ k l o
    ])
Within-then max (Listing.listed o) k w rest = w
Within-then max Listing.failed k w rest = tt
Within-then max (Listing.next l o) k w rest = rest l o w

list_entries-Within :
    (max n : ℕ) (sector l : List ℕ) (out : List VfsDirEntry)
    → length out ≤ max
    → Within max (list_entries max n sector l out)
unfolding list_entries
list_entries-Within max zero sector l out h = h
list_entries-Within max (suc n) sector l out h =
    Within-then max (list_entry max (take 32 sector) l out) (list_entries max n (drop 32 sector))
      (list_entry-Within max (take 32 sector) l out h) (list_entries-Within max n (drop 32 sector))

module _ (read : ℕ → Option (List ℕ)) (max : ℕ) where
  list_sectors-Within :
      (n lba : ℕ) (l : List ℕ) (out : List VfsDirEntry)
      → length out ≤ max
      → Within max (list_sectors read max n lba l out)
  unfolding list_sectors
  list_sectors-Within zero lba l out h = h
  list_sectors-Within (suc n) lba l out h = elim (Option-cases (read lba)) [
    | inl e ↦ rw (e, list_sectors) tt
    | inr (sector, e) ↦
        rw (e, list_sectors)
          (Within-then max (list_entries max 16 sector l out)
            (list_sectors read max n ((lba + 1) % 2 ^ 32))
            (list_entries-Within max 16 sector l out h)
            (list_sectors-Within n ((lba + 1) % 2 ^ 32)))
  ]

-- A finished listing has at most `max` entries.
abbrev AtMost : ℕ → Option (Option (List VfsDirEntry)) → Type 0
AtMost max (some (some out)) = length out ≤ max
AtMost max (some none) = Unit {0}
AtMost max none = Unit {0}

module _ (read : ℕ → Option (List ℕ)) (m : Fat32Mount) (max : ℕ) where
  list_chain-AtMost :
      (fuel c : ℕ) (l : List ℕ) (out : List VfsDirEntry)
      → length out ≤ max
      → AtMost max (list_chain read m fuel max c l out)
  unfolding list_chain
  list_chain-AtMost zero c l out h = tt
  list_chain-AtMost (suc fuel) c l out h = elim (Bool-cases (in_chain c)) [
    | inl e ↦
        rw (e, list_chain)
          (go (list_sectors read max m.sectors_per_cluster (first_sector_of_cluster m c) l out)
            (list_sectors-Within read max m.sectors_per_cluster (first_sector_of_cluster m c) l out
              h)
            (list_chain-AtMost fuel))
    | inr e ↦ rw (e, list_chain) h
  ]
    where
      go :
          (r : Listing.Listing)
          → Within max r
          → ((c : ℕ) (l : List ℕ) (o : List VfsDirEntry)
              → length o ≤ max
              → AtMost max (list_chain read m fuel max c l o))
          → AtMost max (elim r [
            | Listing.listed o ↦ some (some o)
            | Listing.failed ↦ some none
            | Listing.next l o ↦ elim (read_fat_entry read m c) [
              | none ↦ some none
              | some c ↦ list_chain read m fuel max c l o
            ]
          ])
      go (Listing.listed o) w rest = w
      go Listing.failed w rest = tt
      go (Listing.next l o) w rest = elim (Option-cases (read_fat_entry read m c)) [
        | inl e ↦ rw e tt
        | inr (c', e) ↦ rw e (rest c' l o w)
      ]

-- Whatever the disk holds, a directory listing that ends with success has written at most
-- `max_entries` entries into the caller's array.
pub length-list_directory-le :
    (read : ℕ → Option (List ℕ)) (m : Fat32Mount) (fuel max_entries cluster : ℕ)
    {out : List VfsDirEntry}
    → list_directory read m fuel max_entries cluster ≡ some (some out)
    → length out ≤ max_entries
unfolding list_directory
length-list_directory-le read m fuel max_entries cluster e =
    subst (AtMost max_entries) e
      (list_chain-AtMost read m max_entries fuel cluster no_long_name [] (omega arith))
