-- ===== src/Storage/Registration.antt =====
-- What the registration of a disk does to the table of disks, and which reads succeed.
use schwarz_kernel.Prelude.{
  ℕ, ◌+◌, ◌%◌, ◌^◌, ◌≤◌, ◌<◌, ◌≡◌, refl, ◌∙◌, ◌≢◌, inl, inr, true, Option, none, some, List, ltb,
  set, get_or, length, length-set, get_or-set_self, get_or-set_ne, arith, Bool-cases, lt→ltb,
  ℕ_discrete,
}
use schwarz_kernel.Storage.Disk.{DiskInfo, no_partition, clear_disk_info}
use schwarz_kernel.Storage.Scan.{Scan}
use schwarz_kernel.Storage.Table.{detect_partition_table}
use schwarz_kernel.Storage.Record.{TableIsValid}
use schwarz_kernel.Storage.Scans.{detect_partition_table-TableIsValid}
use schwarz_kernel.Storage.Registry.{
  Drivers, Registry, DiskBackend, backend_none, backend_usb, disk_at, read_backend,
  disk_read_sector, storage_read_disk_sector, storage_read_partition_sector, usb_disk, append_disk,
  scan_disk, storage_register_usb_disk, BootVolumeHandoff, boot_disk, storage_register_boot_volume,
}

-- Eight slots, no more in use, and each disk in use has a valid partition table.
pub record RegistryIsValid (r : Registry) : Type 0 where
  pub slots : length r.disks ≡ 8
  pub backend_slots : length r.backends ≡ 8
  pub within : r.disk_count ≤ 8
  pub tables : (i : ℕ) → i < r.disk_count → TableIsValid (disk_at r i)

-- A step that may fill one more slot and leaves the slots in use alone.
pub record Extends (r r' : Registry) : Type 0 where
  pub valid : RegistryIsValid r'
  pub kept : (i : ℕ) → i < r.disk_count → disk_at r' i ≡ disk_at r i
  pub kept_backend :
      (i : ℕ)
      → i < r.disk_count
      → get_or r'.backends i backend_none ≡ get_or r.backends i backend_none

pub clear-TableIsValid : TableIsValid clear_disk_info
unfolding clear_disk_info
clear-TableIsValid = record { slots = refl; within = omega arith }

pub Extends-refl : (r : Registry) → RegistryIsValid r → Extends r r
Extends-refl r v = record { valid = v; kept = λ i h. refl; kept_backend = λ i h. refl }

pub append_disk-Extends :
    (d : DiskInfo) (b : DiskBackend) (r : Registry)
    → RegistryIsValid r
    → r.disk_count < 8
    → TableIsValid d
    → Extends r (append_disk d b r) × (disk_at (append_disk d b r) r.disk_count ≡ d)
unfolding append_disk
append_disk-Extends d b r v h t = (
  record {
    valid = record {
      slots = length-set r.disks r.disk_count d ∙ v.slots;
      backend_slots = length-set r.backends r.disk_count b ∙ v.backend_slots;
      within = omega arith;
      tables = tables;
    };
    kept = λ i p. old i (omega arith);
    kept_backend = λ i p. get_or-set_ne r.backends r.disk_count i b backend_none (omega arith);
  },
  new,
)
  where
    new : get_or (set r.disks r.disk_count d) r.disk_count clear_disk_info ≡ d
    new = get_or-set_self r.disks r.disk_count d clear_disk_info (omega (arith, v.slots))

    old :
        (i : ℕ)
        → r.disk_count ≢ i
        → get_or (set r.disks r.disk_count d) i clear_disk_info ≡ disk_at r i
    old i p = get_or-set_ne r.disks r.disk_count i d clear_disk_info p

    tables :
        (i : ℕ)
        → i < r.disk_count + 1
        → TableIsValid (get_or (set r.disks r.disk_count d) i clear_disk_info)
    tables i p = elim (ℕ_discrete r.disk_count i) [
      | yes e ↦ rw (← e, new) t
      | no n ↦ rw (old i n) (v.tables i (omega arith))
    ]

usb_disk-TableIsValid :
    (slot device count size : ℕ) → TableIsValid (usb_disk slot device count size)
unfolding usb_disk clear_disk_info
usb_disk-TableIsValid slot device count size = record { slots = refl; within = omega arith }

boot_disk-TableIsValid : (h : BootVolumeHandoff) → TableIsValid (boot_disk h)
unfolding boot_disk clear_disk_info
boot_disk-TableIsValid h = record { slots = refl; within = omega arith }

-- The scan of the disk in slot `i` changes that slot only.
pub scan_disk-kept :
    (v : Drivers) (i j : ℕ) (r : Registry) → i ≢ j → disk_at (scan_disk v i r) j ≡ disk_at r j
unfolding scan_disk
scan_disk-kept v i j r h = get_or-set_ne r.disks i j _ clear_disk_info h

pub scan_disk-RegistryIsValid :
    (v : Drivers) (i : ℕ) (r : Registry)
    → RegistryIsValid r
    → i < r.disk_count
    → RegistryIsValid (scan_disk v i r)
unfolding scan_disk
scan_disk-RegistryIsValid v i r w h = record {
  slots = length-set r.disks i scanned ∙ w.slots;
  backend_slots = w.backend_slots;
  within = w.within;
  tables = tables;
}
  where
    scan : Scan
    scan = record {
      disk = disk_at r i;
      sector_buffer = r.sector_buffer;
      gpt_entry_buffer = r.gpt_entry_buffer;
    }

    scanned : DiskInfo
    scanned = record (detect_partition_table (disk_read_sector v r i) r.behind scan).disk {
      present = true;
    }

    found : TableIsValid (detect_partition_table (disk_read_sector v r i) r.behind scan).disk
    found =
        detect_partition_table-TableIsValid (disk_read_sector v r i) r.behind scan
          (w.tables i h).slots

    tables :
        (j : ℕ) → j < r.disk_count → TableIsValid (get_or (set r.disks i scanned) j clear_disk_info)
    tables j p = elim (ℕ_discrete i j) [
      | yes e ↦
          rw
            (
              ← e,
              get_or-set_self r.disks i scanned clear_disk_info (omega (arith, w.slots, w.within)),
            )
            (record { slots = found.slots; within = found.within })
      | no n ↦ rw (get_or-set_ne r.disks i j scanned clear_disk_info n) (w.tables j p)
    ]

-- Registering a USB disk in a valid table keeps the table valid, whatever the disk holds and however
-- its reads fail, and leaves the disks registered before as they were.
pub storage_register_usb_disk-Extends :
    (v : Drivers) (device count size : ℕ) (r : Registry)
    → RegistryIsValid r
    → Extends r (storage_register_usb_disk v device count size r)
unfolding storage_register_usb_disk append_disk scan_disk
storage_register_usb_disk-Extends v device count size r w = elim (Bool-cases (ltb r.disk_count 8)) [
  | inl free ↦
      let d = usb_disk r.disk_count device count size in
      let a =
        append_disk-Extends d backend_usb r w (ground arith)
          (usb_disk-TableIsValid r.disk_count device count size) in
      rw free (added d a.0)
  | inr full ↦ rw full (Extends-refl r w)
]
  where
    added :
        (d : DiskInfo)
        → Extends r (append_disk d backend_usb r)
        → Extends r (scan_disk v r.disk_count (append_disk d backend_usb r))
    added d a =
        let q : Registry = append_disk d backend_usb r in
        record {
          valid = scan_disk-RegistryIsValid v r.disk_count q a.valid (omega arith);
          kept = λ i h. scan_disk-kept v r.disk_count i q (omega arith) ∙ a.kept i h;
          kept_backend = a.kept_backend;
        }

-- Registering the boot volume does so too.
pub storage_register_boot_volume-Extends :
    (h : Option BootVolumeHandoff) (r : Registry)
    → RegistryIsValid r
    → Extends r (storage_register_boot_volume h r)
unfolding storage_register_boot_volume
storage_register_boot_volume-Extends none r w = Extends-refl r w
storage_register_boot_volume-Extends (some h) r w = elim (Bool-cases (ltb r.disk_count 8)) [
  | inl free ↦ ground (
    arith,
    Extends-refl r w,
    (append_disk-Extends (boot_disk h) backend_none r w (ground arith)
        (boot_disk-TableIsValid h)).0,
  )
  | inr full ↦ ground (arith, Extends-refl r w)
]

no_driver :
    (v : Drivers) (index device lba : ℕ) → read_backend v backend_none index device lba ≡ none
unfolding read_backend
no_driver v index device lba = refl

-- The boot volume has no driver: once it is registered, no sector of it can be read, although it is
-- present.
pub storage_read_disk_sector-boot_volume :
    (v : Drivers) (h : BootVolumeHandoff) (r : Registry) (lba : ℕ)
    → RegistryIsValid r
    → h.present ≡ true
    → r.disk_count < 8
    → let r' = storage_register_boot_volume (some h) r in
      ((disk_at r' r.disk_count).present ≡ true)
      × (storage_read_disk_sector v r' r.disk_count lba ≡ none)
unfolding storage_register_boot_volume storage_read_disk_sector disk_read_sector append_disk
    boot_disk
storage_read_disk_sector-boot_volume v h r lba w p f =
    rw (p, lt→ltb r.disk_count 8 f) (ground (arith, new), ground (arith, new, unread))
  where
    new : get_or (set r.disks r.disk_count (boot_disk h)) r.disk_count clear_disk_info ≡ boot_disk h
    new =
        get_or-set_self r.disks r.disk_count (boot_disk h) clear_disk_info (omega (arith, w.slots))

    unread :
        read_backend v
          (get_or (set r.backends r.disk_count backend_none) r.disk_count backend_none)
          r.disk_count
          (boot_disk h).usb_device_index
          lba
        ≡ none
    unread =
        rw
          (get_or-set_self r.backends r.disk_count backend_none backend_none
            (omega (arith, w.backend_slots)))
          (no_driver v _ _ lba)

-- A read of a partition that succeeds is the read of its disk at the partition's first sector plus
-- the offset, in 64 bits, and happens only where disk and partition are in use and present.
pub storage_read_partition_sector_lem :
    (v : Drivers) (r : Registry) (index partition rel : ℕ) {sector : List ℕ}
    → storage_read_partition_sector v r index partition rel ≡ some sector
    → let part = get_or (disk_at r index).partitions partition no_partition in
      (storage_read_disk_sector v r index ((part.first_lba + rel) % 2 ^ 64) ≡ some sector)
      × (index < r.disk_count)
      × (partition < (disk_at r index).partition_count)
      × (part.present ≡ true)
unfolding storage_read_partition_sector storage_read_disk_sector
storage_read_partition_sector_lem v r index partition rel e = ground arith
