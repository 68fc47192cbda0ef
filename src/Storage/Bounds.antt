-- ===== src/Storage/Bounds.antt =====
-- Which memory the GPT scan reads: the entry buffer, or what stands behind it.
use schwarz_kernel.Prelude.{
  ℕ, zero, suc, ◌+◌, ◌*◌, ◌%◌, ◌^◌, ◌≤◌, ◌<◌, ◌≡◌, refl, sym, ap, ◌∙◌, inl, inr, Bool, false,
  Option, some, List, [], ◌∷◌, ◌++◌, ltb, ◌==◌, if◌then◌else◌, length, get_or, take, drop,
  length-append, length-take, length-drop, arith, Bool-cases, Option-cases, min, le16, le32, le64,
  not,
}
use schwarz_kernel.Storage.Disk.{DiskInfo, style_gpt}
use schwarz_kernel.Storage.Scan.{Scan}
use schwarz_kernel.Storage.Gpt.{
  GptHeader, gpt_header, gpt_entry, put_sector, add_gpt_entries, sectors_to_read, read_entries,
  scan_gpt_entries, detect_gpt_partitions,
}

module _ {ℓ} {A : Type ℓ} where
  get_or-append :
      (xs ys : List A) (i : ℕ) (d : A) → i < length xs → get_or (xs ++ ys) i d ≡ get_or xs i d
  get_or-append [] ys i d h = absurd (omega arith)
  get_or-append (x ∷ xs) ys zero d h = refl
  get_or-append (x ∷ xs) ys (suc i) d h = get_or-append xs ys i d (omega arith)

  take-append : (n : ℕ) (xs ys : List A) → n ≤ length xs → take n (xs ++ ys) ≡ take n xs
  take-append zero xs ys h = refl
  take-append (suc n) [] ys h = absurd (omega arith)
  take-append (suc n) (x ∷ xs) ys h = ap (◌∷◌ x) (take-append n xs ys (omega arith))

  drop-append : (n : ℕ) (xs ys : List A) → n ≤ length xs → drop n (xs ++ ys) ≡ drop n xs ++ ys
  drop-append zero xs ys h = refl
  drop-append (suc n) [] ys h = absurd (omega arith)
  drop-append (suc n) (x ∷ xs) ys h = drop-append n xs ys (omega arith)

le16-append : (xs ys : List ℕ) (i : ℕ) → i + 2 ≤ length xs → le16 (xs ++ ys) i ≡ le16 xs i
unfolding le16
le16-append xs ys i h =
    rw (get_or-append xs ys i 0 (omega arith), get_or-append xs ys (i + 1) 0 (omega arith))

le32-append : (xs ys : List ℕ) (i : ℕ) → i + 4 ≤ length xs → le32 (xs ++ ys) i ≡ le32 xs i
unfolding le32
le32-append xs ys i h =
    rw (le16-append xs ys i (omega arith), le16-append xs ys (i + 2) (omega arith))

le64-append : (xs ys : List ℕ) (i : ℕ) → i + 8 ≤ length xs → le64 (xs ++ ys) i ≡ le64 xs i
unfolding le64
le64-append xs ys i h =
    rw (le32-append xs ys i (omega arith), le32-append xs ys (i + 4) (omega arith))

-- An entry is told by its first 48 bytes.
gpt_entry-append : (xs ys : List ℕ) → 48 ≤ length xs → gpt_entry (xs ++ ys) ≡ gpt_entry xs
unfolding gpt_entry
gpt_entry-append xs ys h = rw (
  take-append 16 xs ys (omega arith),
  le64-append xs ys 32 (omega arith),
  le64-append xs ys 40 (omega arith),
)

-- Entries that stand inside the buffer are read from it alone.
add_gpt_entries-append :
    (buf b : List ℕ) (size n i : ℕ) (d : DiskInfo)
    → 128 ≤ size
    → (i + n) * size ≤ length buf
    → add_gpt_entries (buf ++ b) size n i d ≡ add_gpt_entries buf size n i d
unfolding add_gpt_entries
add_gpt_entries-append buf b size zero i d h l = refl
add_gpt_entries-append buf b size (suc n) i d h l =
    rw
      (
        drop-append (i * size) buf b (grind arith),
        gpt_entry-append (drop (i * size) buf) b (grind (arith, length-drop (i * size) buf)),
      )
      (add_gpt_entries-append buf b size n (i + 1) _ h (grind arith))

length-put_sector :
    (i : ℕ) (sector buf : List ℕ)
    → i < 8
    → length sector ≡ 512
    → length buf ≡ 4096
    → length (put_sector i sector buf) ≡ 4096
unfolding put_sector
length-put_sector i sector buf h s l = omega (
  arith,
  length-append (take (i * 512) buf) (take 512 sector ++ drop ((i + 1) * 512) buf),
  length-append (take 512 sector) (drop ((i + 1) * 512) buf),
  length-take (i * 512) buf,
  length-take 512 sector,
  length-drop ((i + 1) * 512) buf,
)

module _ (read : ℕ → Option (List ℕ))
    (sectors : (lba : ℕ) (sector : List ℕ) → read lba ≡ some sector → length sector ≡ 512) where
  length-read_entries :
      (lba n i : ℕ) (buf : List ℕ)
      → i + n ≤ 8
      → length buf ≡ 4096
      → length (read_entries read lba n i buf).0 ≡ 4096
  unfolding read_entries
  length-read_entries lba zero i buf h l = l
  length-read_entries lba (suc n) i buf h l = elim (Option-cases (read ((lba + i) % 2 ^ 64))) [
    | inl e ↦ rw (e, read_entries) l
    | inr (s, e) ↦
        rw (e, read_entries)
          (length-read_entries lba n (i + 1) (put_sector i s buf) (omega arith)
            (length-put_sector i s buf (omega arith) (sectors _ s e) l))
  ]

  scan_gpt_entries_behind :
      (b b' : List ℕ) (h : GptHeader) (s : Scan)
      → length s.gpt_entry_buffer ≡ 4096
      → h.partition_entry_size * min h.partition_entry_count 32 ≤ 4096
      → scan_gpt_entries read b h s ≡ scan_gpt_entries read b' h s
  unfolding scan_gpt_entries sectors_to_read
  scan_gpt_entries_behind b b' h s l fits = elim (Bool-cases (ltb size 128)) [
    | inl small ↦ rw small
    | inr large ↦
        rw large (
          ap (λ d. if done then record s' { disk = d } else s')
            (same large b ∙ sym (same large b')))
  ]
    where
      size : ℕ
      size = h.partition_entry_size

      n : ℕ
      n = min h.partition_entry_count 32

      out : List ℕ × Bool
      out = read_entries read h.partition_entries_lba (sectors_to_read size n) 0 s.gpt_entry_buffer

      done : Bool
      done = out.1

      s' : Scan
      s' = record s { gpt_entry_buffer = out.0 }

      same :
          ltb size 128 ≡ false
          → (x : List ℕ)
          → add_gpt_entries (out.0 ++ x) size n 0 s.disk ≡ add_gpt_entries out.0 size n 0 s.disk
      same large x = add_gpt_entries-append out.0 x size n 0 s.disk (ground arith) (
          omega (
            arith,
            length-read_entries h.partition_entries_lba (sectors_to_read size n) 0
                s.gpt_entry_buffer (omega arith) l,
          ))

  -- Where every sector has 512 bytes and the table that the header announces (32 entries at most)
  -- fits the 4096 bytes of the entry buffer, the GPT scan does not depend on the memory behind it.
  pub detect_gpt_partitions_behind :
      (b b' : List ℕ) (s : Scan)
      → length s.gpt_entry_buffer ≡ 4096
      → ((sector : List ℕ)
          → read 1 ≡ some sector
          → (gpt_header sector).partition_entry_size
              * min (gpt_header sector).partition_entry_count 32
            ≤ 4096)
      → detect_gpt_partitions read b s ≡ detect_gpt_partitions read b' s
  unfolding detect_gpt_partitions
  detect_gpt_partitions_behind b b' s l fits = elim (Option-cases (read 1)) [
    | inl e ↦ rw (e, detect_gpt_partitions)
    | inr (sector, e) ↦
        rw (e, detect_gpt_partitions)
          (ap
            (λ x.
              if not ((gpt_header sector).signature == 0x5452415020494645)
              then record s { sector_buffer = sector }
              else x)
            (scan_gpt_entries_behind b b' (gpt_header sector)
              (record s {
                disk = record s.disk { partition_style = style_gpt; partition_count = 0 };
                sector_buffer = sector;
              })
              l (fits sector e)))
  ]
