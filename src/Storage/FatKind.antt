-- ===== src/Storage/FatKind.antt =====
-- storage.cpp: detect_fat_boot_sector_kind, which tells a FAT volume from its boot sector.
use schwarz_kernel.Prelude.{
  ℕ, ◌+◌, ◌-◌, ◌*◌, ◌/◌, ◌^◌, ◌<◌, ◌≡◌, ◌⊎◌, ◌≤◌, zero, suc, refl, ap, ◌∙◌, Bool, true, false, not,
  ◌&&◌, ◌||◌, Option, none, some, List, ◌==◌, ltb, if◌then◌else◌, byte_at, le16, le32, sub32, codes,
  arith,
}

pub data FatKind : Type 0 where
  fat12 fat16 fat32 : FatKind

-- The text that the source returns for the kind.
unfoldable pub fat_name : FatKind → List ℕ
fat_name fat12 = codes "FAT12"
fat_name fat16 = codes "FAT16"
fat_name fat32 = codes "FAT32"

-- The fields of the boot sector that the check reads.
pub record Bpb : Type 0 where
  pub bytes_per_sector : ℕ
  pub sectors_per_cluster : ℕ
  pub reserved_sector_count : ℕ
  pub num_fats : ℕ
  pub root_entry_count : ℕ
  pub total_sectors_16 : ℕ
  pub fat_size_16 : ℕ
  pub total_sectors_32 : ℕ
  pub fat_size_32 : ℕ

unfoldable pub read_bpb : List ℕ → Bpb
read_bpb s = record {
  bytes_per_sector = le16 s 11;
  sectors_per_cluster = byte_at s 13;
  reserved_sector_count = le16 s 14;
  num_fats = byte_at s 16;
  root_entry_count = le16 s 17;
  total_sectors_16 = le16 s 19;
  fat_size_16 = le16 s 22;
  total_sectors_32 = le32 s 32;
  fat_size_32 = le32 s 36;
}

unfoldable pub has_boot_signature : List ℕ → Bool
has_boot_signature s = byte_at s 510 == 0x55 && byte_at s 511 == 0xAA

unfoldable pub total_sectors : Bpb → ℕ
total_sectors b = if not (b.total_sectors_16 == 0) then b.total_sectors_16 else b.total_sectors_32

unfoldable pub fat_size : Bpb → ℕ
fat_size b = if not (b.fat_size_16 == 0) then b.fat_size_16 else b.fat_size_32

unfoldable pub root_dir_sectors : Bpb → ℕ
root_dir_sectors b = (b.root_entry_count * 32 + (b.bytes_per_sector - 1)) / b.bytes_per_sector

-- In uint32_t: the product and the difference wrap.
unfoldable pub data_sectors : Bpb → ℕ
data_sectors b =
    sub32 (total_sectors b) (b.reserved_sector_count + b.num_fats * fat_size b + root_dir_sectors b)

unfoldable pub kind_of_clusters : ℕ → FatKind
kind_of_clusters n = if ltb n 4085 then fat12 else if ltb n 65525 then fat16 else fat32

unfoldable pub bpb_kind : Bpb → Option FatKind
bpb_kind b =
    if not (b.bytes_per_sector == 512)
      && not (b.bytes_per_sector == 1024)
      && not (b.bytes_per_sector == 2048)
      && not (b.bytes_per_sector == 4096)
    then none
    else if b.sectors_per_cluster == 0 || b.reserved_sector_count == 0 || b.num_fats == 0
    then none
    else if total_sectors b == 0 || fat_size b == 0
    then none
    else if data_sectors b == 0
    then none
    else some (kind_of_clusters (data_sectors b / b.sectors_per_cluster))

-- `none` is the source's `nullptr`.
unfoldable pub detect_fat_boot_sector_kind : List ℕ → Option FatKind
detect_fat_boot_sector_kind s = if not (has_boot_signature s) then none else bpb_kind (read_bpb s)

-- The specification of FAT, on the bytes of a boot sector: a 16-bit field that is 0 stands for the 32-bit one.
abbrev either_field : ℕ → ℕ → ℕ
either_field zero wide = wide
either_field (suc n) wide = suc n

abbrev pub sectors_in : List ℕ → ℕ
sectors_in s = either_field (le16 s 19) (le32 s 32)

abbrev pub table_sectors_in : List ℕ → ℕ
table_sectors_in s = either_field (le16 s 22) (le32 s 36)

-- The reserved sectors, the tables, and the root directory in whole sectors.
abbrev pub sectors_before_data : List ℕ → ℕ
sectors_before_data s =
    le16 s 14 + byte_at s 16 * table_sectors_in s + (le16 s 17 * 32 + (le16 s 11 - 1)) / le16 s 11

abbrev pub clusters_in : List ℕ → ℕ
clusters_in s = (sectors_in s - sectors_before_data s) / byte_at s 13

-- What the source's check asks of a boot sector, and that the regions before the data fit in the
-- volume, which it does not ask.
pub record IsFatLayout (s : List ℕ) : Type 0 where
  pub signature_low : byte_at s 510 ≡ 0x55
  pub signature_high : byte_at s 511 ≡ 0xAA
  pub sector_size :
      (le16 s 11 ≡ 512) ⊎ ((le16 s 11 ≡ 1024) ⊎ ((le16 s 11 ≡ 2048) ⊎ (le16 s 11 ≡ 4096)))
  pub clusters : 0 < byte_at s 13
  pub reserved : 0 < le16 s 14
  pub fats : 0 < byte_at s 16
  pub fat_sectors : 0 < table_sectors_in s
  pub total_small : sectors_in s < 2 ^ 32
  pub fits : sectors_before_data s < sectors_in s

either_field_lem : (n wide : ℕ) → (if not (n == 0) then n else wide) ≡ either_field n wide
either_field_lem zero wide = refl
either_field_lem (suc n) wide = ground arith

total_sectors_lem : (s : List ℕ) → total_sectors (read_bpb s) ≡ sectors_in s
unfolding total_sectors read_bpb
total_sectors_lem s = either_field_lem (le16 s 19) (le32 s 32)

fat_size_lem : (s : List ℕ) → fat_size (read_bpb s) ≡ table_sectors_in s
unfolding fat_size read_bpb
fat_size_lem s = either_field_lem (le16 s 22) (le32 s 36)

data_sectors_lem :
    (s : List ℕ) → IsFatLayout s → data_sectors (read_bpb s) ≡ sectors_in s - sectors_before_data s
unfolding data_sectors root_dir_sectors read_bpb
data_sectors_lem s v =
    rw (total_sectors_lem s, fat_size_lem s) (omega (arith, v.fits, v.total_small))

-- The check passes.
bpb_kind_lem :
    (s : List ℕ)
    → IsFatLayout s
    → bpb_kind (read_bpb s)
      ≡ some (kind_of_clusters (data_sectors (read_bpb s) / (read_bpb s).sectors_per_cluster))
unfolding bpb_kind read_bpb
bpb_kind_lem s v = ground (
  arith,
  total_sectors_lem s,
  fat_size_lem s,
  data_sectors_lem s v,
  v.sector_size,
  v.clusters,
  v.reserved,
  v.fats,
  v.fat_sectors,
  v.fits,
)

kind_in :
    (s : List ℕ) → IsFatLayout s → bpb_kind (read_bpb s) ≡ some (kind_of_clusters (clusters_in s))
unfolding read_bpb
kind_in s v =
    bpb_kind_lem s v ∙ ap (λ n. some (kind_of_clusters (n / byte_at s 13))) (data_sectors_lem s v)

-- The kind of a boot sector for a number of clusters is the one that the specification gives it.
unfoldable pub IsKindOf : ℕ → FatKind → Type 0
IsKindOf clusters fat12 = clusters < 4085
IsKindOf clusters fat16 = (4085 ≤ clusters) × (clusters < 65525)
IsKindOf clusters fat32 = 65525 ≤ clusters

kind_of_clusters-IsKindOf : (n : ℕ) → IsKindOf n (kind_of_clusters n)
unfolding kind_of_clusters IsKindOf
kind_of_clusters-IsKindOf n = go (ltb n 4085) (ltb n 65525) refl refl
  where
    go :
        (low middle : Bool)
        → ltb n 4085 ≡ low
        → ltb n 65525 ≡ middle
        → IsKindOf n (if low then fat12 else if middle then fat16 else fat32)
    go true middle e f = ground (arith, e)
    go false true e f = (ground (arith, e), ground (arith, f))
    go false false e f = ground (arith, f)

-- For a boot sector with the signature, a sector size of 512, 1024, 2048 or 4096, at least one sector per cluster, reserved
-- sector, table and sector per table, and fewer than 2 ^ 32 sectors, where the reserved sectors, the tables and the root
-- directory leave room for data, the kind is the one of the FAT specification by the number of whole clusters in the
-- sectors that are left: FAT12 below 4085, FAT16 from there below 65525, and FAT32 from there on.
pub detect_fat_boot_sector_kind_lem :
    (s : List ℕ)
    → IsFatLayout s
    → (k : FatKind) × (detect_fat_boot_sector_kind s ≡ some k) × IsKindOf (clusters_in s) k
unfolding detect_fat_boot_sector_kind has_boot_signature
detect_fat_boot_sector_kind_lem s v = (
  kind_of_clusters (clusters_in s),
  ground (arith, v.signature_low, v.signature_high, kind_in s v),
  kind_of_clusters-IsKindOf (clusters_in s),
)
