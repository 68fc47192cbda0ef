-- ===== src/Compiler/Lex.antt =====
-- compiler.cpp: the branches of lex and its loop, on fuel.
use schwarz_kernel.Prelude.{
  ℕ, zero, suc, ◌+◌, not, ◌&&◌, Option, none, some, List, [], ◌∷◌, ◌++◌, ◌==◌, leb, if◌then◌else◌,
  set, get_or, length, drop, codes, copy_cstr,
}
use schwarz_kernel.Compiler.Errors.{add_error, my_strcat}
use schwarz_kernel.Compiler.Tokens.{TokenType, t_ident, t_number, t_eof, t_unknown, keyword}
use schwarz_kernel.Compiler.Lexer.{
  Token, no_token, Lexer, my_isdigit, my_isalpha, decode_escape_char, peek, skip_line, scan_word,
  scan_number, skip_literal, operator_of,
}

abbrev pub too_many_tokens : List ℕ
too_many_tokens = codes "Za duzo tokenow (limit 1023)"

-- The messages that are not ASCII are in UTF-8.
abbrev pub open_literal : List ℕ
open_literal = codes "Niedomkniety litera" ++ 0xC5 ∷ 0x82 ∷ codes " znakowy"

abbrev pub bad_escape : List ℕ
bad_escape = codes "Niepoprawny escape w litera" ++ 0xC5 ∷ 0x82 ∷ codes "e znakowym"

abbrev pub long_literal : List ℕ
long_literal =
    codes "Litera"
    ++ 0xC5 ∷ 0x82 ∷ codes " znakowy musi zawiera"
    ++ 0xC4 ∷ 0x87 ∷ codes " dok"
    ++ 0xC5 ∷ 0x82 ∷ codes "adnie jeden znak"

abbrev pub unknown_char : ℕ → List ℕ
unknown_char c = my_strcat (my_strcat (codes "Nieznany znak: '") (c ∷ []) 64) (codes "'") 64

unfoldable pub report : List ℕ → Lexer → Lexer
report msg s = record s { errors = add_error s.line msg s.errors }

-- A write into `token_stream[t]`, which keeps the other fields of an earlier run.
unfoldable pub set_token : Token → Lexer → Lexer
set_token x s = record s { token_stream = set s.token_stream s.t x }

abbrev pub this_token : Lexer → Token
this_token s = get_or s.token_stream s.t no_token

-- `token_stream[t].line = line`
unfoldable pub set_line : Lexer → Lexer
set_line s = set_token (record (this_token s) { line = s.line }) s

-- The token's type is set, and `t++`.
unfoldable pub put_type : TokenType → Lexer → Lexer
put_type type s = record (set_token (record (this_token s) { type = type; line = s.line }) s) {
  t = s.t + 1;
}

unfoldable pub put_number : ℕ → Lexer → Lexer
put_number val s =
    record (set_token (record (this_token s) { type = t_number; value = val; line = s.line }) s) {
      t = s.t + 1;
    }

unfoldable pub put_ident : List ℕ → Lexer → Lexer
put_ident buf s =
    record (set_token
      (record (this_token s) { type = t_ident; ident = copy_cstr buf 32; line = s.line }) s) {
        t = s.t + 1;
      }

-- The next token or white space read, with the text that is left, or the loop's `break`.
pub data Step : Type 0 where
  going : Lexer → List ℕ → Step
  stopped : Lexer → Step

unfoldable pub lex_word : Lexer → List ℕ → Step
lex_word s src =
    let (buf, rest) = scan_word 31 src in
    elim (keyword buf) [
      | some type ↦ going (put_type type s) rest
      | none ↦ going (put_ident buf s) rest
    ]

unfoldable pub lex_number : Lexer → List ℕ → Step
lex_number s src = let (val, rest) = scan_number src in going (put_number val s) rest

-- After the character of a literal.
unfoldable pub close_literal : ℕ → Lexer → List ℕ → Step
close_literal val s src =
    if not (peek src == 39)
    then (let rest = skip_literal src in
        going (put_number val (report long_literal s))
          (if peek rest == 39 then drop 1 rest else rest))
    else going (put_number val s) (drop 1 src)

-- After the opening quote.
unfoldable pub lex_literal : Lexer → List ℕ → Step
lex_literal s [] = stopped (report open_literal s)
lex_literal s (c ∷ []) = if c == 92 then stopped (report bad_escape s) else close_literal c s []
lex_literal s (c ∷ e ∷ src) =
    if c == 92 then close_literal (decode_escape_char e) s src else close_literal c s (e ∷ src)

unfoldable pub lex_operator : Lexer → ℕ → List ℕ → Step
lex_operator s c src = elim (operator_of c (peek src)) [
  | some (type, n) ↦ going (put_type type s) (drop n (c ∷ src))
  | none ↦ going (put_type t_unknown (report (unknown_char c) s)) src
]

-- The body of the loop, on a text that begins with `c`.
unfoldable pub lex_step : Lexer → ℕ → List ℕ → Step
lex_step s c src =
    if c == 10
    then going (record s { line = s.line + 1 }) src
    else if leb c 32
    then going s src
    else if c == b'/' && peek src == b'/'
    then going s (skip_line (c ∷ src))
    else if leb 1023 s.t
    then stopped (report too_many_tokens s)
    else if my_isalpha c
    then lex_word (set_line s) (c ∷ src)
    else if my_isdigit c
    then lex_number (set_line s) (c ∷ src)
    else if c == 39
    then lex_literal (set_line s) src
    else lex_operator (set_line s) c src

-- `none` where the fuel runs out.
unfoldable pub lex_loop : ℕ → Lexer → List ℕ → Option Lexer
lex_loop zero s src = none
lex_loop (suc fuel) s [] = some s
lex_loop (suc fuel) s (c ∷ src) = elim (lex_step s c src) [
  | going s' rest ↦ lex_loop fuel s' rest
  | stopped s' ↦ some s'
]

-- The end mark, in the slot behind the last token.
unfoldable pub finish : Lexer → Lexer
finish s = record (set_token (record (this_token s) { type = t_eof; line = s.line }) s) {
  token_count = s.t;
}

-- On the stream that an earlier run has left.
unfoldable pub lex : List Token → List ℕ → Option Lexer
lex stream src =
    elim (lex_loop (length src + 1)
      (record { token_stream = stream; token_count = 0; errors = []; t = 0; line = 1 }) src) [
        | none ↦ none
        | some s ↦ some (finish s)
      ]
