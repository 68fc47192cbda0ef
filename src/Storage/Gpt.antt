-- ===== src/Storage/Gpt.antt =====
-- storage.cpp: the GUID partition table.
use schwarz_kernel.Prelude.{
  ℕ, zero, suc, ◌+◌, ◌-◌, ◌*◌, ◌/◌, ◌%◌, ◌^◌, Bool, true, false, not, Option, none, some, List, [],
  ◌∷◌, ◌++◌, ◌==◌, ltb, if◌then◌else◌, le32, le64, bytes_eq, take, drop, replicate, codes, min,
}
use schwarz_kernel.Storage.Disk.{DiskInfo, style_gpt}
use schwarz_kernel.Storage.Scan.{Scan, add_partition}

abbrev guid_efi_system : List ℕ
guid_efi_system =
    0x28 ∷ 0x73 ∷ 0x2A ∷ 0xC1 ∷ 0x1F ∷ 0xF8 ∷ 0xD2 ∷ 0x11 ∷ 0xBA ∷ 0x4B ∷ 0x00 ∷ 0xA0 ∷ 0xC9 ∷ 0x3E
    ∷ 0xC9 ∷ 0x3B ∷ []

abbrev guid_microsoft_reserved : List ℕ
guid_microsoft_reserved =
    0x16 ∷ 0xE3 ∷ 0xC9 ∷ 0xE3 ∷ 0x5C ∷ 0x0B ∷ 0xB8 ∷ 0x4D ∷ 0x81 ∷ 0x7D ∷ 0xF9 ∷ 0x2D ∷ 0xF0 ∷ 0x02
    ∷ 0x15 ∷ 0xAE ∷ []

abbrev guid_microsoft_basic_data : List ℕ
guid_microsoft_basic_data =
    0xA2 ∷ 0xA0 ∷ 0xD0 ∷ 0xEB ∷ 0xE5 ∷ 0xB9 ∷ 0x33 ∷ 0x44 ∷ 0x87 ∷ 0xC0 ∷ 0x68 ∷ 0xB6 ∷ 0xB7 ∷ 0x26
    ∷ 0x99 ∷ 0xC7 ∷ []

abbrev guid_windows_recovery : List ℕ
guid_windows_recovery =
    0xA4 ∷ 0xBB ∷ 0x94 ∷ 0xDE ∷ 0xD1 ∷ 0x06 ∷ 0x4D ∷ 0x40 ∷ 0xA1 ∷ 0x6A ∷ 0xBF ∷ 0xD5 ∷ 0x01 ∷ 0x79
    ∷ 0xD6 ∷ 0xAC ∷ []

abbrev guid_linux_filesystem : List ℕ
guid_linux_filesystem =
    0xAF ∷ 0x3D ∷ 0xC6 ∷ 0x0F ∷ 0x83 ∷ 0x84 ∷ 0x72 ∷ 0x47 ∷ 0x8E ∷ 0x79 ∷ 0x3D ∷ 0x69 ∷ 0xD8 ∷ 0x47
    ∷ 0x7D ∷ 0xE4 ∷ []

-- `none` for the zero GUID of an unused entry.
unfoldable pub gpt_type_name : List ℕ → Option (List ℕ)
gpt_type_name g =
    if bytes_eq g (replicate 16 0)
    then none
    else if bytes_eq g guid_efi_system
    then some (codes "EFI System")
    else if bytes_eq g guid_microsoft_reserved
    then some (codes "Microsoft Reserved")
    else if bytes_eq g guid_microsoft_basic_data
    then some (codes "Basic Data")
    else if bytes_eq g guid_windows_recovery
    then some (codes "Windows Recovery")
    else if bytes_eq g guid_linux_filesystem
    then some (codes "Linux Filesystem")
    else some (codes "GPT Partition")

-- The fields of `GptHeader` that the scan reads.
pub record GptHeader : Type 0 where
  pub signature : ℕ
  pub partition_entries_lba : ℕ
  pub partition_entry_count : ℕ
  pub partition_entry_size : ℕ

unfoldable pub gpt_header : List ℕ → GptHeader
gpt_header s = record {
  signature = le64 s 0;
  partition_entries_lba = le64 s 72;
  partition_entry_count = le32 s 80;
  partition_entry_size = le32 s 84;
}

pub record GptEntry : Type 0 where
  pub type_guid : List ℕ
  pub first_lba : ℕ
  pub last_lba : ℕ

-- The entry that stands at the front of a block of bytes.
unfoldable pub gpt_entry : List ℕ → GptEntry
gpt_entry raw = record { type_guid = take 16 raw; first_lba = le64 raw 32; last_lba = le64 raw 40 }

-- `g_gpt_entry_buffer + i * 512` filled with one sector.
unfoldable pub put_sector : ℕ → List ℕ → List ℕ → List ℕ
put_sector i sector buf = take (i * 512) buf ++ (take 512 sector ++ drop ((i + 1) * 512) buf)

unfoldable pub add_gpt_entry : GptEntry → DiskInfo → DiskInfo
add_gpt_entry e d = elim (gpt_type_name e.type_guid) [
  | none ↦ d
  | some type ↦
      if ltb e.last_lba e.first_lba
      then d
      else add_partition e.first_lba ((e.last_lba - e.first_lba + 1) % 2 ^ 64) type d
]

-- The loop over the entries `i`, `i + 1`, …; `mem` is the memory from the start of the buffer on.
unfoldable pub add_gpt_entries : List ℕ → ℕ → ℕ → ℕ → DiskInfo → DiskInfo
add_gpt_entries mem entry_size zero i d = d
add_gpt_entries mem entry_size (suc n) i d =
    add_gpt_entries mem entry_size n (i + 1) (
      if ltb d.partition_count 8
      then add_gpt_entry (gpt_entry (drop (i * entry_size) mem)) d
      else d)

unfoldable pub sectors_to_read : ℕ → ℕ → ℕ
sectors_to_read entry_size max_entries = min ((entry_size * max_entries + 511) / 512 % 2 ^ 32) 8

-- `read` reads a sector of the disk, `none` where the driver fails.
module _ (read : ℕ → Option (List ℕ)) where
  -- The loop that fills the entry buffer: the buffer, and whether every read succeeded.
  unfoldable pub read_entries : ℕ → ℕ → ℕ → List ℕ → List ℕ × Bool
  read_entries lba zero i buf = (buf, true)
  read_entries lba (suc n) i buf = elim (read ((lba + i) % 2 ^ 64)) [
    | none ↦ (buf, false)
    | some sector ↦ read_entries lba n (i + 1) (put_sector i sector buf)
  ]

-- `behind` is the memory that follows the 4096 bytes of `g_gpt_entry_buffer`.
module _ (read : ℕ → Option (List ℕ)) (behind : List ℕ) where
  -- From the entry size on, with the style set and no partition recorded.
  unfoldable pub scan_gpt_entries : GptHeader → Scan → Scan
  scan_gpt_entries h s =
      let size = h.partition_entry_size in
      let max_entries = min h.partition_entry_count 32 in
      let (buf, done) =
        read_entries read h.partition_entries_lba (sectors_to_read size max_entries) 0
          s.gpt_entry_buffer in
      let s' = record s { gpt_entry_buffer = buf } in
      if ltb size 128
      then s
      else if done
      then record s' { disk = add_gpt_entries (buf ++ behind) size max_entries 0 s.disk }
      else s'

  -- The sector read for the header stays in the shared buffer also when it is no GPT header.
  unfoldable pub detect_gpt_partitions : Scan → Scan
  detect_gpt_partitions s = elim (read 1) [
    | none ↦ s
    | some sector ↦
        let s' = record s { sector_buffer = sector } in
        if not ((gpt_header sector).signature == 0x5452415020494645)
        then s'
        else scan_gpt_entries (gpt_header sector) (record s' {
          disk = record s.disk { partition_style = style_gpt; partition_count = 0 };
        })
  ]
