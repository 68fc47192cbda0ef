-- ===== src/Fat32/Names.antt =====
-- fat32.cpp: directory entries, their short and long names, and the comparison of names. A name is
-- the text up to its terminator; the bytes of an entry are those of its 32.
use schwarz_kernel.Prelude.{
  ℕ, ◌+◌, ◌-◌, ◌*◌, ◌^◌, Bool, true, false, not, ◌&&◌, List, [], ◌∷◌, ◌++◌, ◌==◌, ltb, leb, has_bit,
  if◌then◌else◌, byte_at, le16, le32, take, drop, length, copy_cstr,
}

-- `FatDirEntry83`, the fields that the driver reads.
pub record FatDirEntry83 : Type 0 where
  pub name : List ℕ
  pub attr : ℕ
  pub first_cluster_hi : ℕ
  pub first_cluster_lo : ℕ
  pub file_size : ℕ

-- The cast of 32 bytes to an entry.
unfoldable pub dir_entry : List ℕ → FatDirEntry83
dir_entry raw = record {
  name = take 11 raw;
  attr = byte_at raw 11;
  first_cluster_hi = le16 raw 20;
  first_cluster_lo = le16 raw 26;
  file_size = le32 raw 28;
}

-- A value-initialised entry, as `mem_zero` leaves it.
abbrev pub no_entry : FatDirEntry83
no_entry = record { name = []; attr = 0; first_cluster_hi = 0; first_cluster_lo = 0; file_size = 0 }

unfoldable pub is_lfn_entry : FatDirEntry83 → Bool
is_lfn_entry e = e.attr == 0x0F

unfoldable pub is_directory : FatDirEntry83 → Bool
is_directory e = has_bit e.attr 4

unfoldable pub entry_cluster : FatDirEntry83 → ℕ
entry_cluster e = e.first_cluster_hi * 2 ^ 16 + e.first_cluster_lo

unfoldable pub upper_ascii : ℕ → ℕ
upper_ascii c = if leb b'a' c && leb c b'z' then c - b'a' + b'A' else c

-- The text of a char array: up to the first NUL.
unfoldable pub c_text : List ℕ → List ℕ
c_text [] = []
c_text (c ∷ cs) = if c == 0 then [] else c ∷ c_text cs

-- `trim_spaces`: the spaces at the end go.
unfoldable pub trim_spaces : List ℕ → List ℕ
trim_spaces [] = []
trim_spaces (c ∷ cs) =
    let rest = trim_spaces cs in
    elim rest [ [] ↦ (if c == b' ' then [] else c ∷ []) | d ∷ ds ↦ c ∷ d ∷ ds ]

-- The two copying loops of `format_short_name`: as much of `src` as there is room for behind `pos`
-- bytes.
unfoldable pub append_bounded : List ℕ → ℕ → List ℕ → List ℕ
append_bounded out room [] = out
append_bounded out room (c ∷ src) =
    if ltb (length out + 1) room then append_bounded (out ++ c ∷ []) room src else out

unfoldable pub format_short_name : FatDirEntry83 → ℕ → List ℕ
format_short_name e room =
    let base = trim_spaces (c_text (take 8 e.name)) in
    let ext = trim_spaces (c_text (take 3 (drop 8 e.name))) in
    let out = append_bounded [] room base in
    elim ext [
      | [] ↦ out
      | c ∷ cs ↦
          if ltb (length out + 1) room then append_bounded (out ++ b'.' ∷ []) room (c ∷ cs) else out
    ]

-- `str_eq_ci`, and the loop of `short_name_equals`
unfoldable pub str_eq_ci : List ℕ → List ℕ → Bool
str_eq_ci [] [] = true
str_eq_ci [] (b ∷ bs) = false
str_eq_ci (a ∷ as') [] = false
str_eq_ci (a ∷ as') (b ∷ bs) = upper_ascii a == upper_ascii b && str_eq_ci as' bs

unfoldable pub short_name_equals : FatDirEntry83 → List ℕ → Bool
short_name_equals e component = str_eq_ci (format_short_name e 64) component

-- `long_name` is a char array, whose text is empty where no long name was read.
unfoldable pub has_long_name : List ℕ → Bool
has_long_name long_name = not (byte_at long_name 0 == 0)

unfoldable pub entry_name_equals : FatDirEntry83 → List ℕ → List ℕ → Bool
entry_name_equals e long_name component =
    if has_long_name long_name
    then str_eq_ci (c_text long_name) component
    else short_name_equals e component

unfoldable pub entry_name_to_text : FatDirEntry83 → List ℕ → ℕ → List ℕ
entry_name_to_text e long_name room =
    if has_long_name long_name then copy_cstr (c_text long_name) room else format_short_name e room
