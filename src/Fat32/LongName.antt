-- ===== src/Fat32/LongName.antt =====
-- fat32.cpp: the long-name entries, decoded into the array `long_name` of 256 bytes.
use schwarz_kernel.Prelude.{
  ℕ, zero, suc, ◌+◌, ◌*◌, ◌%◌, ◌^◌, ◌||◌, List, [], ◌∷◌, ◌==◌, leb, if◌then◌else◌, byte_at, le16,
  sub32, set, length,
}

-- The 13 UTF-16 units of an entry, by its three fields.
pub record FatLongDirEntry : Type 0 where
  pub order : ℕ
  pub name1 : List ℕ
  pub name2 : List ℕ
  pub name3 : List ℕ

unfoldable pub units : List ℕ → ℕ → ℕ → List ℕ
units raw off zero = []
units raw off (suc n) = le16 raw off ∷ units raw (off + 2) n

unfoldable pub long_entry : List ℕ → FatLongDirEntry
long_entry raw = record {
  order = byte_at raw 0;
  name1 = units raw 1 5;
  name2 = units raw 14 6;
  name3 = units raw 28 2;
}

unfoldable pub lfn_char : ℕ → ℕ
lfn_char ch = if leb ch 0x00FF then ch else b'?'

-- `append_lfn_chars` from index `at = base + i` on; the additions are in uint32_t.
unfoldable pub append_lfn_chars : List ℕ → ℕ → List ℕ → List ℕ
append_lfn_chars out pos [] = out
append_lfn_chars out pos (ch ∷ src) =
    let next = (pos + 1) % 2 ^ 32 in
    let rest = append_lfn_chars (set (set out pos (lfn_char ch)) next 0) next src in
    if ch == 0x0000 || ch == 0xFFFF then out else if leb (length out) next then out else rest

unfoldable pub decode_lfn_entry : FatLongDirEntry → List ℕ → List ℕ
decode_lfn_entry lfn out =
    let base = sub32 (lfn.order % 32) 1 * 13 % 2 ^ 32 in
    let out1 = append_lfn_chars out base lfn.name1 in
    let out2 = append_lfn_chars out1 ((base + 5) % 2 ^ 32) lfn.name2 in
    append_lfn_chars out2 ((base + 11) % 2 ^ 32) lfn.name3

unfoldable pub clear_lfn_state : List ℕ → List ℕ
clear_lfn_state long_name = set long_name 0 0
