-- ===== src/Storage/Detected.antt =====
-- storage.cpp: the registration of AHCI and IDE disks by their IDENTIFY data, and the list of
-- controllers without a driver.
use schwarz_kernel.Prelude.{
  ℕ, ◌+◌, ◌*◌, ◌^◌, ◌<◌, ◌≡◌, refl, ◌∙◌, inl, inr, not, Option, List, [], ◌∷◌, ◌++◌, ltb, leb, ◌==◌,
  if◌then◌else◌, has_bit, byte_at, le16, set, get_or, get_elem?, length, length-set, get_or-set_ne,
  codes, copy_cstr, arith, Bool-cases,
}
use schwarz_kernel.Storage.Disk.{DiskInfo, clear_disk_info}
use schwarz_kernel.Storage.Registry.{
  Drivers, Registry, DiskBackend, backend_ahci, backend_ide, disk_at, disk_name, append_disk,
  scan_disk,
}
use schwarz_kernel.Storage.Record.{TableIsValid}
use schwarz_kernel.Storage.Registration.{
  RegistryIsValid, Extends, Extends-refl, append_disk-Extends, scan_disk-kept,
  scan_disk-RegistryIsValid,
}

-- Words 100 to 103 of the IDENTIFY data, or words 60 and 61 where those are 0; 0 is the source's
-- `false`.
unfoldable pub extract_sector_count : List ℕ → ℕ
extract_sector_count d =
    let sectors = le16 d 200 + le16 d 202 * 2 ^ 16 + le16 d 204 * 2 ^ 32 + le16 d 206 * 2 ^ 48 in
    if sectors == 0 then le16 d 120 + le16 d 122 * 2 ^ 16 else sectors

-- The record of an ATA disk before its scan.
unfoldable pub ata_disk : List ℕ → ℕ → List ℕ → DiskInfo
ata_disk transport slot identify_data = record clear_disk_info {
  name = disk_name slot;
  transport = copy_cstr transport 16;
  sector_size = 512;
  removable = has_bit (byte_at identify_data 0) 7;
  sector_count = extract_sector_count identify_data;
}

-- The port goes to the driver of the slot, which is a parameter.
unfoldable pub register_ahci_disk : Drivers → List ℕ → Registry → Registry
register_ahci_disk v identify_data r =
    if not (ltb r.disk_count 8)
    then r
    else scan_disk v r.disk_count
        (append_disk (ata_disk (codes "AHCI/SATA") r.disk_count identify_data) backend_ahci r)

-- A disk without sectors is not registered, but has been written into the next free slot.
unfoldable pub register_ide_disk : Drivers → List ℕ → Registry → Registry
register_ide_disk v identify_data r =
    let d = ata_disk (codes "IDE/ATA") r.disk_count identify_data in
    if not (ltb r.disk_count 8)
    then r
    else if extract_sector_count identify_data == 0
    then record r { disks = set r.disks r.disk_count d }
    else scan_disk v r.disk_count (append_disk d backend_ide r)

pub record UnsupportedControllerInfo : Type 0 where
  pub name : List ℕ
  pub reason : List ℕ
  pub bus : ℕ
  pub slot : ℕ
  pub func : ℕ

-- `g_unsupported[0..g_unsupported_count)` is the list.
unfoldable pub register_unsupported_controller :
    ℕ → ℕ → ℕ → List ℕ → List ℕ → List UnsupportedControllerInfo → List UnsupportedControllerInfo
register_unsupported_controller bus slot func name reason infos =
    if leb 16 (length infos)
    then infos
    else infos
      ++ record {
        name = copy_cstr name 32;
        reason = copy_cstr reason 48;
        bus = bus;
        slot = slot;
        func = func;
      }
        ∷ []

unfoldable pub storage_get_unsupported :
    List UnsupportedControllerInfo → ℕ → Option UnsupportedControllerInfo
storage_get_unsupported infos index = get_elem? infos index

unfoldable pub mass_storage_name : ℕ → ℕ → List ℕ
mass_storage_name subclass prog_if =
    if subclass == 0x00
    then codes "SCSI storage controller"
    else if subclass == 0x01
    then codes "IDE controller"
    else if subclass == 0x04
    then codes "RAID controller"
    else if subclass == 0x05
    then codes "ATA controller"
    else if subclass == 0x06
    then (if prog_if == 0x01 then codes "AHCI controller" else codes "SATA controller")
    else if subclass == 0x07
    then codes "SAS controller"
    else if subclass == 0x08
    then codes "NVMe controller"
    else codes "Unknown storage controller"

unfoldable pub usb_controller_name : ℕ → List ℕ
usb_controller_name prog_if =
    if prog_if == 0x00
    then codes "UHCI USB controller"
    else if prog_if == 0x10
    then codes "OHCI USB controller"
    else if prog_if == 0x20
    then codes "EHCI USB controller"
    else if prog_if == 0x30
    then codes "xHCI USB controller"
    else codes "USB controller"

ata_disk-TableIsValid : (t : List ℕ) (slot : ℕ) (d : List ℕ) → TableIsValid (ata_disk t slot d)
unfolding ata_disk clear_disk_info
ata_disk-TableIsValid t slot d = record { slots = refl; within = omega arith }

-- A disk in the next slot, with its scan.
scanned-Extends :
    (v : Drivers) (d : DiskInfo) (b : DiskBackend) (r : Registry)
    → RegistryIsValid r
    → r.disk_count < 8
    → TableIsValid d
    → Extends r (scan_disk v r.disk_count (append_disk d b r))
unfolding append_disk scan_disk
scanned-Extends v d b r w h t =
    let a = (append_disk-Extends d b r w h t).0 in
    let q : Registry = append_disk d b r in
    record {
      valid = scan_disk-RegistryIsValid v r.disk_count q a.valid (omega arith);
      kept = λ i p. scan_disk-kept v r.disk_count i q (omega arith) ∙ a.kept i p;
      kept_backend = a.kept_backend;
    }

-- A slot that is not in use is written.
unused-Extends :
    (d : DiskInfo) (r : Registry)
    → RegistryIsValid r
    → Extends r (record r { disks = set r.disks r.disk_count d })
unused-Extends d r w = record {
  valid = record {
    slots = length-set r.disks r.disk_count d ∙ w.slots;
    backend_slots = w.backend_slots;
    within = w.within;
    tables = λ i p. rw (old i p) (w.tables i p);
  };
  kept = old;
  kept_backend = λ i p. refl;
}
  where
    old :
        (i : ℕ)
        → i < r.disk_count
        → get_or (set r.disks r.disk_count d) i clear_disk_info ≡ disk_at r i
    old i p = get_or-set_ne r.disks r.disk_count i d clear_disk_info (λ e. omega arith)

-- Registering an AHCI or an IDE disk in a valid table of disks keeps the table valid, whatever the
-- disk's IDENTIFY data, its sectors and its failing reads, and leaves the disks registered before as
-- they were.
pub register_ata_disk-Extends :
    (v : Drivers) (identify_data : List ℕ) (r : Registry)
    → RegistryIsValid r
    → Extends r (register_ahci_disk v identify_data r)
      × Extends r (register_ide_disk v identify_data r)
unfolding register_ahci_disk register_ide_disk
register_ata_disk-Extends v d r w =
    let y = ata_disk (codes "IDE/ATA") r.disk_count d in
    let s = λ (t : List ℕ) (b : DiskBackend) (h : r.disk_count < 8).
      scanned-Extends v (ata_disk t r.disk_count d) b r w h
        (ata_disk-TableIsValid t r.disk_count d) in
    elim (Bool-cases (ltb r.disk_count 8)) [
      | inl free ↦
          let h : r.disk_count < 8 = ground arith in
          elim (Bool-cases (extract_sector_count d == 0)) [
            | inl e ↦ rw (free, e) (s (codes "AHCI/SATA") backend_ahci h, unused-Extends y r w)
            | inr e ↦
                rw (free, e)
                  (s (codes "AHCI/SATA") backend_ahci h, s (codes "IDE/ATA") backend_ide h)
          ]
      | inr full ↦ rw full (Extends-refl r w, Extends-refl r w)
    ]
