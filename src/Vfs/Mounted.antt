-- ===== src/Vfs/Mounted.antt =====
-- The drives that vfs_init makes: their letters, and the volume behind each.
use schwarz_kernel.Prelude.{
  get_elem?-snoc, ℕ, zero, suc, ◌+◌, ◌≤◌, ◌<◌, ◌≡◌, ◌≢◌, refl, sym, ap, subst, ◌∙◌, inl, inr,
  Option, none, some, List, [], ◌∷◌, ◌++◌, set, get_elem?, length, length-set, length-append,
  get_or-set_self, get_or-set_ne, arith, Bool-cases, Option-cases, eq_of_some,
}
use schwarz_kernel.Storage.Disk.{DiskInfo}
use schwarz_kernel.Storage.Registry.{Drivers, Registry, storage_get_disk}
use schwarz_kernel.Fat32.Volume.{Fat32Mount}
use schwarz_kernel.Fat32.Names.{upper_ascii}
use schwarz_kernel.Fat32.Mount.{
  VfsDriveInfo, Mounts, mount_slot, mount_for_drive, boot_sector, is_fat32_boot_sector,
  fat32_try_mount, make_mount,
}
use schwarz_kernel.Vfs.Drives.{
  Vfs, no_drives, try_mount, mount_partitions, mount_disk, mount_disks, vfs_init,
  find_drive_by_letter,
}

-- The mount that a drive is resolved to is of the drive's disk and partition.
pub record IsMounted (mounts : Mounts) (d : VfsDriveInfo) : Type 0 where
  pub mount : Fat32Mount
  pub resolved : mount_for_drive mounts d ≡ some mount
  pub same_disk : mount.disk_index ≡ d.disk_index
  pub same_partition : mount.partition_index ≡ d.partition_index

-- At most eight drives, lettered from C on without a gap, each with its own volume.
pub record VfsIsValid (s : Vfs) : Type 0 where
  pub slots : length s.mounts ≡ 8
  pub within : length s.drives ≤ 8
  pub next : s.next_letter ≡ b'C' + length s.drives
  pub letters : (i : ℕ) (d : VfsDriveInfo) → get_elem? s.drives i ≡ some d → d.letter ≡ b'C' + i
  pub mounted : (i : ℕ) (d : VfsDriveInfo) → get_elem? s.drives i ≡ some d → IsMounted s.mounts d

get_elem?_lt {ℓ} :
    {A : Type ℓ} (xs : List A) (i : ℕ) {a : A} → get_elem? xs i ≡ some a → i < length xs
get_elem?_lt [] i e = cc
get_elem?_lt (x ∷ xs) zero e = omega arith
get_elem?_lt (x ∷ xs) (suc i) e = omega (arith, get_elem?_lt xs i e)

-- An element of a list with one more at its end.
mount_slot_lem : (letter i : ℕ) → letter ≡ b'C' + i → i < 8 → mount_slot letter ≡ some i
unfolding mount_slot
mount_slot_lem letter i e h = ground arith

mount_for_drive-kept :
    (mounts : Mounts) (n i : ℕ) (m : Fat32Mount) (x : VfsDriveInfo) {w : Fat32Mount}
    → mount_slot x.letter ≡ some i
    → n ≢ i
    → mount_for_drive mounts x ≡ some w
    → mount_for_drive (set mounts n (some m)) x ≡ some w
unfolding mount_for_drive
mount_for_drive-kept mounts n i m x at other r =
    let r' = rw (at, mount_for_drive) at r in
    rw (at, mount_for_drive) (get_or-set_ne mounts n i (some m) none other ∙ r')

mount_for_drive-new :
    (mounts : Mounts) (n : ℕ) (m : Fat32Mount) (x : VfsDriveInfo)
    → mount_slot x.letter ≡ some n
    → n < length mounts
    → mount_for_drive (set mounts n (some m)) x ≡ some m
unfolding mount_for_drive
mount_for_drive-new mounts n m x at h =
    rw (at, mount_for_drive) (get_or-set_self mounts n (some m) none h)

-- The next drive, put into the next slot.
add_drive-VfsIsValid :
    (s : Vfs) (d : VfsDriveInfo) (m : Fat32Mount)
    → VfsIsValid s
    → length s.drives < 8
    → d.letter ≡ s.next_letter
    → m.disk_index ≡ d.disk_index
    → m.partition_index ≡ d.partition_index
    → VfsIsValid (record {
      drives = s.drives ++ d ∷ [];
      mounts = set s.mounts (length s.drives) (some m);
      next_letter = s.next_letter + 1;
    })
add_drive-VfsIsValid s d m v h e p q = record {
  slots = length-set s.mounts n (some m) ∙ v.slots;
  within = omega (arith, more);
  next = omega (arith, more, v.next);
  letters = λ i x f. elim (get_elem?-snoc s.drives d i f) [
    | inl g ↦ v.letters i x g
    | inr (g, k) ↦ ap (λ (y : VfsDriveInfo). y.letter) (sym k) ∙ omega (arith, e, v.next, g)
  ];
  mounted = λ i x f. elim (get_elem?-snoc s.drives d i f) [
    | inl g ↦
        let w = v.mounted i x g in
        let lt = get_elem?_lt s.drives i g in
        let at = mount_slot_lem x.letter i (v.letters i x g) (omega (arith, v.within)) in
        record {
          mount = w.mount;
          resolved = mount_for_drive-kept s.mounts n i m x at (omega arith) w.resolved;
          same_disk = w.same_disk;
          same_partition = w.same_partition;
        }
    | inr (g, k) ↦ subst (IsMounted (set s.mounts n (some m))) k new
  ];
}
  where
    n : ℕ
    n = length s.drives

    more : length (s.drives ++ d ∷ []) ≡ length s.drives + 1
    more = length-append s.drives (d ∷ [])

    new : IsMounted (set s.mounts n (some m)) d
    new = record {
      mount = m;
      resolved =
          mount_for_drive-new s.mounts n m d (mount_slot_lem d.letter n (e ∙ v.next) h)
            (omega (arith, v.slots));
      same_disk = p;
      same_partition = q;
    }

module _ (v : Drivers) (r : Registry) where
  try_mount-VfsIsValid :
      (disk : ℕ) (part : Option ℕ) (s : Vfs)
      → VfsIsValid s
      → length s.drives < 8
      → VfsIsValid (try_mount v r disk part s)
  unfolding try_mount fat32_try_mount make_mount
  try_mount-VfsIsValid disk part s w h = elim (Option-cases (boot_sector v r disk part)) [
    | inl e ↦ rw (e, try_mount) w
    | inr ((sector, base), e) ↦ elim (Bool-cases (is_fat32_boot_sector sector)) [
      | inl fat ↦
          rw (e, fat, mount_slot_lem s.next_letter (length s.drives) w.next h, try_mount)
            (add_drive-VfsIsValid s _ (make_mount disk part sector base) w h refl refl refl)
      | inr other ↦ rw (e, other, try_mount) w
    ]
  ]

  mount_partitions-VfsIsValid :
      (disk : ℕ) (d : DiskInfo) (n part : ℕ) (s : Vfs)
      → VfsIsValid s
      → VfsIsValid (mount_partitions v r disk d n part s)
  unfolding mount_partitions
  mount_partitions-VfsIsValid disk d zero part s w = w
  mount_partitions-VfsIsValid disk d (suc n) part s w =
      mount_partitions-VfsIsValid disk d n (part + 1) _
        (ground (arith, w, try_mount-VfsIsValid disk (some part) s w))

  mount_disk-VfsIsValid :
      (disk : ℕ) (s : Vfs) → VfsIsValid s → length s.drives < 8 → VfsIsValid (mount_disk v r disk s)
  unfolding mount_disk
  mount_disk-VfsIsValid disk s w h = elim (Option-cases (storage_get_disk r disk)) [
    | inl e ↦ rw (e, mount_disk) w
    | inr (d, e) ↦
        rw (e, mount_disk)
          (ground (
            arith,
            w,
            try_mount-VfsIsValid disk none s w h,
            mount_partitions-VfsIsValid disk d d.partition_count 0 s w,
          ))
  ]

  mount_disks-VfsIsValid :
      (n disk : ℕ) (s : Vfs) → VfsIsValid s → VfsIsValid (mount_disks v r n disk s)
  unfolding mount_disks
  mount_disks-VfsIsValid zero disk s w = w
  mount_disks-VfsIsValid (suc n) disk s w =
      mount_disks-VfsIsValid n (disk + 1) _ (ground (arith, w, mount_disk-VfsIsValid disk s w))

  -- Whatever the disks hold, and whatever an earlier call has mounted in the eight slots, `vfs_init`
  -- makes at most eight drives, lettered from C on without a gap, and each is resolved to the mount of
  -- its own disk and partition.
  pub vfs_init-VfsIsValid : (mounts : Mounts) → length mounts ≡ 8 → VfsIsValid (vfs_init v r mounts)
  unfolding vfs_init
  vfs_init-VfsIsValid mounts h = mount_disks-VfsIsValid r.disk_count 0 (no_drives mounts) (record {
    slots = h;
    within = omega arith;
    next = refl;
    letters = λ i d e. cc;
    mounted = λ i d e. cc;
  })

-- Drives lettered from `c` on are found by their letters.
find_drive_from :
    (ds : List VfsDriveInfo) (c i letter : ℕ) (d : VfsDriveInfo)
    → ((j : ℕ) (x : VfsDriveInfo) → get_elem? ds j ≡ some x → x.letter ≡ c + j)
    → b'C' ≤ c
    → c + length ds ≤ b'K'
    → upper_ascii letter ≡ c + i
    → get_elem? ds i ≡ some d
    → find_drive_by_letter ds letter ≡ some d
unfolding find_drive_by_letter upper_ascii
find_drive_from [] c i letter d s l h u e = cc
find_drive_from (x ∷ ds) c zero letter d s l h u e = ground (arith, s 0 x refl, eq_of_some e)
find_drive_from (x ∷ ds) c (suc i) letter d s l h u e =
    let rest =
      find_drive_from ds (c + 1) i letter d (λ j y f. s (suc j) y f ∙ omega arith) (omega arith)
        (omega arith) (omega (arith, u)) e in
    ground (arith, s 0 x refl, rest)

-- In a valid table of drives, the drive in a slot is found by its letter, in either case.
pub find_drive_by_letter_lem :
    (s : Vfs) (i letter : ℕ) {d : VfsDriveInfo}
    → VfsIsValid s
    → get_elem? s.drives i ≡ some d
    → upper_ascii letter ≡ b'C' + i
    → find_drive_by_letter s.drives letter ≡ some d
find_drive_by_letter_lem s i letter {d = d} w e u =
    find_drive_from s.drives b'C' i letter d w.letters (omega arith) (omega (arith, w.within)) u e
