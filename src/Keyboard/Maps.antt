-- ===== src/Keyboard/Maps.antt =====
-- keyboard.h: the scancode tables. A list index past the end reads 0, as the zero tail does.
use schwarz_kernel.Prelude.{ℕ, List, [], ◌∷◌, replicate}

-- `const uint8_t kb_scancode_map[128]`
unfoldable pub kb_scancode_map : List ℕ
kb_scancode_map =
    0
    ∷ 0
    ∷ b'1'
    ∷ b'2'
    ∷ b'3'
    ∷ b'4'
    ∷ b'5'
    ∷ b'6'
    ∷ b'7'
    ∷ b'8'
    ∷ b'9'
    ∷ b'0'
    ∷ b'-'
    ∷ b'='
    ∷ 8
    ∷ 9
    ∷ b'q'
    ∷ b'w'
    ∷ b'e'
    ∷ b'r'
    ∷ b't'
    ∷ b'y'
    ∷ b'u'
    ∷ b'i'
    ∷ b'o'
    ∷ b'p'
    ∷ b'['
    ∷ b']'
    ∷ 10
    ∷ 0
    ∷ b'a'
    ∷ b's'
    ∷ b'd'
    ∷ b'f'
    ∷ b'g'
    ∷ b'h'
    ∷ b'j'
    ∷ b'k'
    ∷ b'l'
    ∷ b';'
    ∷ 39
    ∷ b'`'
    ∷ 0
    ∷ 92
    ∷ b'z'
    ∷ b'x'
    ∷ b'c'
    ∷ b'v'
    ∷ b'b'
    ∷ b'n'
    ∷ b'm'
    ∷ b','
    ∷ b'.'
    ∷ b'/'
    ∷ 0
    ∷ b'*'
    ∷ 0
    ∷ b' '
    ∷ replicate 70 0

-- `const uint8_t kb_scancode_map_shift[128]`
unfoldable pub kb_scancode_map_shift : List ℕ
kb_scancode_map_shift =
    0
    ∷ 0
    ∷ b'!'
    ∷ b'@'
    ∷ b'#'
    ∷ b'$'
    ∷ b'%'
    ∷ b'^'
    ∷ b'&'
    ∷ b'*'
    ∷ b'('
    ∷ b')'
    ∷ b'_'
    ∷ b'+'
    ∷ 8
    ∷ 9
    ∷ b'Q'
    ∷ b'W'
    ∷ b'E'
    ∷ b'R'
    ∷ b'T'
    ∷ b'Y'
    ∷ b'U'
    ∷ b'I'
    ∷ b'O'
    ∷ b'P'
    ∷ b'{'
    ∷ b'}'
    ∷ 10
    ∷ 0
    ∷ b'A'
    ∷ b'S'
    ∷ b'D'
    ∷ b'F'
    ∷ b'G'
    ∷ b'H'
    ∷ b'J'
    ∷ b'K'
    ∷ b'L'
    ∷ b':'
    ∷ 34
    ∷ b'~'
    ∷ 0
    ∷ b'|'
    ∷ b'Z'
    ∷ b'X'
    ∷ b'C'
    ∷ b'V'
    ∷ b'B'
    ∷ b'N'
    ∷ b'M'
    ∷ b'<'
    ∷ b'>'
    ∷ b'?'
    ∷ 0
    ∷ b'*'
    ∷ 0
    ∷ b' '
    ∷ replicate 70 0

-- `struct AltPolishEntry`
pub record AltPolishEntry : Type 0 where
  pub code : ℕ
  pub cp_lower : ℕ
  pub cp_upper : ℕ

abbrev entry : ℕ → ℕ → ℕ → AltPolishEntry
entry c l u = record { code = c; cp_lower = l; cp_upper = u }

-- `kb_alt_polish` up to its sentinel
unfoldable pub kb_alt_polish : List AltPolishEntry
kb_alt_polish =
    entry 0x1E 0x0105 0x0104
    ∷ entry 0x2E 0x0107 0x0106
    ∷ entry 0x12 0x0119 0x0118
    ∷ entry 0x26 0x0142 0x0141
    ∷ entry 0x31 0x0144 0x0143
    ∷ entry 0x18 0x00F3 0x00D3
    ∷ entry 0x1F 0x015B 0x015A
    ∷ entry 0x2D 0x017A 0x0179
    ∷ entry 0x2C 0x017C 0x017B
    ∷ []
