-- ===== src/Compiler/Tests.antt =====
-- Runs of the lexer.
use schwarz_kernel.Prelude.{
  ℕ, ◌≡◌, refl, Option, none, some, List, [], ◌∷◌, ◌++◌, map, take, replicate, codes,
}
use schwarz_kernel.Compiler.Tokens.{
  TokenType, t_int, t_ident, t_assign, t_number, t_semicolon, t_pluseq, keyword,
}
use schwarz_kernel.Compiler.Lexer.{
  Token, no_token, Lexer, my_isdigit, my_isalpha, my_isalnum, scan_word, scan_number, scan_hex,
  scan_decimal, hex_digit, skip_line, operator_of,
}
use schwarz_kernel.Compiler.Lex.{
  lex_step, lex_loop, lex_word, lex_number, lex_operator, put_type, put_number, put_ident,
  set_token, set_line, finish, lex,
}
use schwarz_kernel.Compiler.Stream.{StreamIsValid}
use schwarz_kernel.Compiler.Lexing.{lex-StreamIsValid}

abbrev empty_stream : List Token
empty_stream = replicate 1024 no_token

-- The types and values of the tokens of a text.
abbrev tokens_of : List ℕ → Option (List (TokenType × ℕ))
tokens_of src = elim (lex empty_stream src) [
  | none ↦ none
  | some s ↦ some (map (λ (x : Token). (x.type, x.value)) (take s.token_count s.token_stream))
]

lex_declaration :
    tokens_of (codes "int x = 0x1F; // c" ++ 10 ∷ codes "x += 7;")
    ≡ some (
        (t_int, 0)
        ∷ (t_ident, 0)
        ∷ (t_assign, 0)
        ∷ (t_number, 31)
        ∷ (t_semicolon, 0)
        ∷ (t_ident, 0)
        ∷ (t_pluseq, 0)
        ∷ (t_number, 7)
        ∷ (t_semicolon, 0)
        ∷ [])
unfolding lex lex_loop lex_step lex_word lex_number lex_operator put_type put_number put_ident
    set_token set_line finish my_isdigit my_isalpha my_isalnum scan_word scan_number scan_hex
    scan_decimal hex_digit skip_line operator_of keyword
lex_declaration = refl

-- A word of 34 characters is cut into two identifiers.
lex_long_word : tokens_of (replicate 34 b'a') ≡ some ((t_ident, 0) ∷ (t_ident, 0) ∷ [])
unfolding lex lex_loop lex_step lex_word put_ident set_token set_line finish my_isdigit my_isalpha
    my_isalnum scan_word keyword
lex_long_word = refl

lex-StreamIsValid_example :
    (s : Lexer) × (lex empty_stream (codes "if (a <= 'x') @") ≡ some s) × StreamIsValid s
lex-StreamIsValid_example = lex-StreamIsValid empty_stream (codes "if (a <= 'x') @") refl
