-- ===== src/Compiler/Lexer.antt =====
-- compiler.cpp: lex. The text is the list of its bytes before the terminator.
use schwarz_kernel.Prelude.{
  ℕ, zero, suc, ◌+◌, ◌-◌, ◌*◌, ◌%◌, ◌^◌, Bool, ◌&&◌, ◌||◌, Option, none, some, List, [], ◌∷◌, ◌==◌,
  ltb, leb, if◌then◌else◌,
}
use schwarz_kernel.Compiler.Errors.{CompileError}
use schwarz_kernel.Compiler.Tokens.{
  TokenType, t_char, t_assign, t_pluseq, t_minuseq, t_stareq, t_slasheq, t_percenteq, t_eq, t_neq,
  t_lt, t_gt, t_leq, t_geq, t_plus, t_minus, t_star, t_slash, t_percent, t_ampersand, t_and, t_pipe,
  t_or, t_not, t_plusplus, t_minusminus, t_semicolon, t_lparen, t_rparen, t_lbracket, t_rbracket,
  t_lbrace, t_rbrace,
}

-- `value` is an int64_t by its 64 bits.
pub record Token : Type 0 where
  pub type : TokenType
  pub value : ℕ
  pub ident : List ℕ
  pub line : ℕ

abbrev pub no_token : Token
no_token = record { type = t_char; value = 0; ident = []; line = 0 }

-- `token_stream`, `token_count` and the errors, with the two counters of `lex`.
pub record Lexer : Type 0 where
  pub token_stream : List Token
  pub token_count : ℕ
  pub errors : List CompileError
  pub t : ℕ
  pub line : ℕ

abbrev pub in_range : ℕ → ℕ → ℕ → Bool
in_range lo hi c = leb lo c && leb c hi

unfoldable pub my_isdigit : ℕ → Bool
my_isdigit c = in_range b'0' b'9' c

unfoldable pub my_isalpha : ℕ → Bool
my_isalpha c = in_range b'a' b'z' c || in_range b'A' b'Z' c || c == b'_'

unfoldable pub my_isalnum : ℕ → Bool
my_isalnum c = my_isalpha c || my_isdigit c

-- A byte as `char`, widened to 64 bits.
unfoldable pub sign_extend : ℕ → ℕ
sign_extend c = if ltb c 128 then c else c + (2 ^ 64 - 256)

unfoldable pub decode_escape_char : ℕ → ℕ
decode_escape_char c =
    if c == b'n'
    then 10
    else if c == b'r'
    then 13
    else if c == b't'
    then 9
    else if c == 92
    then 92
    else if c == 39
    then 39
    else if c == b'0'
    then 0
    else sign_extend c

-- `*src`: the terminator at the end.
abbrev pub peek : List ℕ → ℕ
peek [] = 0
peek (c ∷ src) = c

-- The rest of a line comment.
unfoldable pub skip_line : List ℕ → List ℕ
skip_line [] = []
skip_line (c ∷ src) = let rest = skip_line src in if c == 10 then c ∷ src else rest

-- The word at the front, of `n` characters at most, and what follows it.
unfoldable pub scan_word : ℕ → List ℕ → List ℕ × List ℕ
scan_word zero src = ([], src)
scan_word (suc n) [] = ([], [])
scan_word (suc n) (c ∷ src) =
    let (word, rest) = scan_word n src in if my_isalnum c then (c ∷ word, rest) else ([], c ∷ src)

unfoldable pub hex_digit : ℕ → Option ℕ
hex_digit c =
    if in_range b'0' b'9' c
    then some (c - b'0')
    else if in_range b'a' b'f' c
    then some (c - b'a' + 10)
    else if in_range b'A' b'F' c
    then some (c - b'A' + 10)
    else none

-- In int64_t, whose overflow is written as the wrap-around that the machine gives it.
unfoldable pub scan_hex : ℕ → List ℕ → ℕ × List ℕ
scan_hex val [] = (val, [])
scan_hex val (c ∷ src) = elim (hex_digit c) [
  | none ↦ (val, c ∷ src)
  | some d ↦ scan_hex ((val * 16 + d) % 2 ^ 64) src
]

unfoldable pub scan_decimal : ℕ → List ℕ → ℕ × List ℕ
scan_decimal val [] = (val, [])
scan_decimal val (c ∷ src) =
    let more = scan_decimal ((val * 10 + (c - b'0')) % 2 ^ 64) src in
    if my_isdigit c then more else (val, c ∷ src)

unfoldable pub scan_number : List ℕ → ℕ × List ℕ
scan_number (zero' ∷ x ∷ src) =
    if zero' == b'0' && (x == b'x' || x == b'X')
    then scan_hex 0 src
    else scan_decimal 0 (zero' ∷ x ∷ src)
scan_number src = scan_decimal 0 src

-- The text from the closing quote or the end of the line on.
unfoldable pub skip_literal : List ℕ → List ℕ
skip_literal [] = []
skip_literal (c ∷ src) = let rest = skip_literal src in if c == 39 || c == 10 then c ∷ src else rest

-- The token that `c` begins, the next character being `d`, and how many characters it takes.
unfoldable pub operator_of : ℕ → ℕ → Option (TokenType × ℕ)
operator_of c d =
    if c == b'+'
    then some
        (if d == b'+' then (t_plusplus, 2) else if d == b'=' then (t_pluseq, 2) else (t_plus, 1))
    else if c == b'-'
    then some (
        if d == b'-' then (t_minusminus, 2) else if d == b'=' then (t_minuseq, 2) else (t_minus, 1))
    else if c == b'*'
    then some (if d == b'=' then (t_stareq, 2) else (t_star, 1))
    else if c == b'/'
    then some (if d == b'=' then (t_slasheq, 2) else (t_slash, 1))
    else if c == b'%'
    then some (if d == b'=' then (t_percenteq, 2) else (t_percent, 1))
    else if c == b'='
    then some (if d == b'=' then (t_eq, 2) else (t_assign, 1))
    else if c == b'!'
    then some (if d == b'=' then (t_neq, 2) else (t_not, 1))
    else if c == b'<'
    then some (if d == b'=' then (t_leq, 2) else (t_lt, 1))
    else if c == b'>'
    then some (if d == b'=' then (t_geq, 2) else (t_gt, 1))
    else if c == b'&'
    then some (if d == b'&' then (t_and, 2) else (t_ampersand, 1))
    else if c == b'|'
    then some (if d == b'|' then (t_or, 2) else (t_pipe, 1))
    else if c == b';'
    then some (t_semicolon, 1)
    else if c == b'('
    then some (t_lparen, 1)
    else if c == b')'
    then some (t_rparen, 1)
    else if c == b'['
    then some (t_lbracket, 1)
    else if c == b']'
    then some (t_rbracket, 1)
    else if c == b'{'
    then some (t_lbrace, 1)
    else if c == b'}'
    then some (t_rbrace, 1)
    else none
