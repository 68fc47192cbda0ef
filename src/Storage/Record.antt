-- ===== src/Storage/Record.antt =====
-- What a scan records: the first `partition_count` slots of the disk's record, against the entries of
-- the table that are in use.
use mathlib.Core.List.{append-nil, append_assoc}
use schwarz_kernel.Prelude.{
  take-set, ℕ, zero, suc, ◌+◌, ◌-◌, ◌*◌, ◌%◌, ◌^◌, ◌≤◌, ◌<◌, ◌≡◌, refl, sym, ap, ◌∙◌, inl, inr,
  true, ◌||◌, none, some, List, [], ◌∷◌, ◌++◌, ltb, ◌==◌, if◌then◌else◌, length, take, drop,
  length-set, length-take, arith, Bool-cases, Option-cases, copy_cstr,
}
use schwarz_kernel.Storage.Disk.{DiskInfo, DiskPartitionInfo, style_mbr}
use schwarz_kernel.Storage.Scan.{add_partition, mbr_type_name}
use schwarz_kernel.Storage.Mbr.{
  MbrEntry, mbr_entries, add_mbr_entry, add_mbr_entries, detect_mbr_partitions,
}
use schwarz_kernel.Storage.Gpt.{GptEntry, gpt_entry, gpt_type_name, add_gpt_entry, add_gpt_entries}

unfoldable pub recorded : DiskInfo → List DiskPartitionInfo
recorded d = take d.partition_count d.partitions

-- The record has its eight slots, and no more are in use.
pub record TableIsValid (d : DiskInfo) : Type 0 where
  pub slots : length d.partitions ≡ 8
  pub within : d.partition_count ≤ 8

take-append_full {ℓ} :
    {A : Type ℓ} (n : ℕ) (xs ys : List A) → length xs ≡ n → take n (xs ++ ys) ≡ xs
take-append_full zero [] ys h = refl
take-append_full zero (x ∷ xs) ys h = absurd (omega arith)
take-append_full (suc n) [] ys h = absurd (omega arith)
take-append_full (suc n) (x ∷ xs) ys h = ap (◌∷◌ x) (take-append_full n xs ys (omega arith))

length-recorded : (d : DiskInfo) → TableIsValid d → length (recorded d) ≡ d.partition_count
unfolding recorded
length-recorded d v = omega (arith, length-take d.partition_count d.partitions)

-- A partition as both tables record it.
abbrev pub partition : ℕ → ℕ → List ℕ → DiskPartitionInfo
partition first_lba sector_count type_name = record {
  present = true;
  first_lba = first_lba;
  sector_count = sector_count;
  type_name = copy_cstr type_name 32;
  filesystem = [];
}

add_partition-TableIsValid :
    (f c : ℕ) (t : List ℕ) (d : DiskInfo)
    → TableIsValid d
    → d.partition_count < 8
    → TableIsValid (add_partition f c t d)
unfolding add_partition
add_partition-TableIsValid f c t d v h =
    ground (arith, length-set d.partitions d.partition_count (partition f c t))

recorded-add_partition :
    (f c : ℕ) (t : List ℕ) (d : DiskInfo)
    → TableIsValid d
    → d.partition_count < 8
    → recorded (add_partition f c t d) ≡ recorded d ++ partition f c t ∷ []
unfolding add_partition recorded
recorded-add_partition f c t d v h =
    take-set d.partitions d.partition_count (partition f c t) (omega arith)

-- What a table entry contributes: an unused entry nothing.
unfoldable pub of_mbr : MbrEntry → List DiskPartitionInfo
of_mbr e =
    if e.type == 0 || e.sector_count == 0
    then []
    else partition e.first_lba e.sector_count (mbr_type_name e.type) ∷ []

unfoldable pub of_gpt : GptEntry → List DiskPartitionInfo
of_gpt e = elim (gpt_type_name e.type_guid) [
  | none ↦ []
  | some type ↦
      if ltb e.last_lba e.first_lba
      then []
      else partition e.first_lba ((e.last_lba - e.first_lba + 1) % 2 ^ 64) type ∷ []
]

-- The entries in use, in the table's order.
unfoldable pub mbr_partitions : List MbrEntry → List DiskPartitionInfo
mbr_partitions [] = []
mbr_partitions (e ∷ es) = of_mbr e ++ mbr_partitions es

unfoldable pub gpt_partitions : List ℕ → ℕ → ℕ → ℕ → List DiskPartitionInfo
gpt_partitions mem size zero i = []
gpt_partitions mem size (suc n) i =
    of_gpt (gpt_entry (drop (i * size) mem)) ++ gpt_partitions mem size n (i + 1)

-- One round with a free slot.
record Adds (xs : List DiskPartitionInfo) (d d' : DiskInfo) : Type 0 where
  valid : TableIsValid d'
  appended : recorded d' ≡ recorded d ++ xs

add_mbr_entry-Adds :
    (e : MbrEntry) (d : DiskInfo)
    → TableIsValid d
    → d.partition_count < 8
    → Adds (of_mbr e) d (add_mbr_entry e d)
unfolding add_mbr_entry of_mbr
add_mbr_entry-Adds e d v h = ground (
  arith,
  add_partition-TableIsValid e.first_lba e.sector_count (mbr_type_name e.type) d v h,
  recorded-add_partition e.first_lba e.sector_count (mbr_type_name e.type) d v h,
  append-nil (recorded d),
)

add_gpt_entry-Adds :
    (e : GptEntry) (d : DiskInfo)
    → TableIsValid d
    → d.partition_count < 8
    → Adds (of_gpt e) d (add_gpt_entry e d)
unfolding add_gpt_entry of_gpt
add_gpt_entry-Adds e d v h = elim (Option-cases (gpt_type_name e.type_guid)) [
  | inl z ↦ ground (arith, append-nil (recorded d))
  | inr (t, z) ↦
      let n = (e.last_lba - e.first_lba + 1) % 2 ^ 64 in
      ground (
        arith,
        add_partition-TableIsValid e.first_lba n t d v h,
        recorded-add_partition e.first_lba n t d v h,
        append-nil (recorded d),
      )
]

-- The first eight of what is recorded and what follows.
pub record Fills (xs : List DiskPartitionInfo) (d d' : DiskInfo) : Type 0 where
  pub valid : TableIsValid d'
  pub filled : recorded d' ≡ take 8 (recorded d ++ xs)

-- A round that adds `xs` if a slot is free, followed by rounds that add `ys`.
Fills-append :
    (xs ys : List DiskPartitionInfo) (d d' d'' : DiskInfo)
    → TableIsValid d
    → (if ltb d.partition_count 8 then Adds xs d d' else d' ≡ d)
    → Fills ys d' d''
    → Fills (xs ++ ys) d d''
Fills-append xs ys d d' d'' v a f = elim (Bool-cases (ltb d.partition_count 8)) [
  | inl free ↦
      let b : Adds xs d d' = rw free at a in
      record {
        valid = f.valid;
        filled =
            f.filled ∙ ap (take 8) (ap (λ r. r ++ ys) b.appended ∙ append_assoc (recorded d) xs ys);
      }
  | inr full ↦
      let e : d' ≡ d = rw full at a in
      let n : length (recorded d) ≡ 8 = ground (arith, length-recorded d v) in
      record {
        valid = f.valid;
        filled =
            f.filled
            ∙ ap (λ (r : DiskInfo). take 8 (recorded r ++ ys)) e
            ∙ take-append_full 8 (recorded d) ys n
            ∙ sym (take-append_full 8 (recorded d) (xs ++ ys) n);
      }
]

take_all {ℓ} : {A : Type ℓ} (n : ℕ) (xs : List A) → length xs ≤ n → take n xs ≡ xs
take_all zero [] h = refl
take_all zero (x ∷ xs) h = absurd (omega arith)
take_all (suc n) [] h = refl
take_all (suc n) (x ∷ xs) h = ap (◌∷◌ x) (take_all n xs (omega arith))

Fills-nil : (d : DiskInfo) → TableIsValid d → Fills [] d d
Fills-nil d v = record {
  valid = v;
  filled = sym (
      ap (take 8) (append-nil (recorded d))
      ∙ take_all 8 (recorded d) (omega (arith, length-recorded d v)));
}

pub add_mbr_entries-Fills :
    (es : List MbrEntry) (d : DiskInfo)
    → TableIsValid d
    → Fills (mbr_partitions es) d (add_mbr_entries es d)
unfolding add_mbr_entries mbr_partitions
add_mbr_entries-Fills [] d v = Fills-nil d v
add_mbr_entries-Fills (e ∷ es) d v = elim (Bool-cases (ltb d.partition_count 8)) [
  | inl free ↦
      let a = add_mbr_entry-Adds e d v (ground arith) in
      rw (free, add_mbr_entries)
        (Fills-append (of_mbr e) (mbr_partitions es) d (add_mbr_entry e d) _ v (rw free a)
          (add_mbr_entries-Fills es (add_mbr_entry e d) a.valid))
  | inr full ↦
      rw (full, add_mbr_entries)
        (Fills-append (of_mbr e) (mbr_partitions es) d d _ v (rw full refl)
          (add_mbr_entries-Fills es d v))
]

pub add_gpt_entries-Fills :
    (mem : List ℕ) (size n i : ℕ) (d : DiskInfo)
    → TableIsValid d
    → Fills (gpt_partitions mem size n i) d (add_gpt_entries mem size n i d)
unfolding add_gpt_entries gpt_partitions
add_gpt_entries-Fills mem size zero i d v = Fills-nil d v
add_gpt_entries-Fills mem size (suc n) i d v =
    let e = gpt_entry (drop (i * size) mem) in
    let xs = gpt_partitions mem size n (i + 1) in
    elim (Bool-cases (ltb d.partition_count 8)) [
      | inl free ↦
          let a = add_gpt_entry-Adds e d v (ground arith) in
          rw (free, add_gpt_entries)
            (Fills-append (of_gpt e) xs d (add_gpt_entry e d) _ v (rw free a)
              (add_gpt_entries-Fills mem size n (i + 1) (add_gpt_entry e d) a.valid))
      | inr full ↦
          rw (full, add_gpt_entries)
            (Fills-append (of_gpt e) xs d d _ v (rw full refl)
              (add_gpt_entries-Fills mem size n (i + 1) d v))
    ]

length-mbr_partitions-le : (es : List MbrEntry) → length (mbr_partitions es) ≤ length es
unfolding mbr_partitions of_mbr
length-mbr_partitions-le [] = omega arith
length-mbr_partitions-le (e ∷ es) = ground (arith, length-mbr_partitions-le es)

-- The MBR scan of a record with eight slots records exactly the entries of the boot sector that have
-- a type and a length, in their order, forgetting what the slots were used for before.
pub detect_mbr_partitions-recorded :
    (sector0 : List ℕ) (d : DiskInfo)
    → length d.partitions ≡ 8
    → recorded (detect_mbr_partitions sector0 d) ≡ mbr_partitions (mbr_entries sector0)
unfolding detect_mbr_partitions recorded
detect_mbr_partitions-recorded sector0 d h =
    (add_mbr_entries-Fills (mbr_entries sector0) fresh fresh_valid).filled
    ∙ take_all 8 (mbr_partitions (mbr_entries sector0))
        (omega (arith, length-mbr_partitions-le (mbr_entries sector0)))
  where
    fresh : DiskInfo
    fresh = record d { partition_style = style_mbr; partition_count = 0 }

    fresh_valid : TableIsValid fresh
    fresh_valid = record { slots = h; within = omega arith }

-- The loop over the GPT entries, started with no partition recorded in eight slots, records the first
-- eight entries that have a type and do not end before they begin, in the table's order.
pub add_gpt_entries-recorded :
    (mem : List ℕ) (size n : ℕ) (d : DiskInfo)
    → length d.partitions ≡ 8
    → d.partition_count ≡ 0
    → recorded (add_gpt_entries mem size n 0 d) ≡ take 8 (gpt_partitions mem size n 0)
unfolding recorded
add_gpt_entries-recorded mem size n d h z =
    (add_gpt_entries-Fills mem size n 0 d (record { slots = h; within = omega arith })).filled
    ∙ ap (λ c. take 8 (take c d.partitions ++ gpt_partitions mem size n 0)) z
