-- ===== src/Compiler/Stream.antt =====
-- The token stream that the lexer writes: its bounds, its end mark and what each token holds.
use schwarz_kernel.Prelude.{
  ℕ, ◌+◌, ◌≤◌, ◌<◌, ◌≡◌, ◌≢◌, sym, subst, ◌∙◌, some, List, [], ◌∷◌, set, get_or, length, length-set,
  length-append, get_or-set_self, get_or-set_ne, arith, ℕ_discrete, copy_cstr, length-copy_cstr-lt,
}
use schwarz_kernel.Compiler.Errors.{CompileError, add_error}
use schwarz_kernel.Compiler.Tokens.{TokenType, t_number, t_ident, t_eof, keyword}
use schwarz_kernel.Compiler.Lexer.{Token, no_token, Lexer, operator_of}
use schwarz_kernel.Compiler.Lex.{
  report, set_token, this_token, set_line, put_type, put_number, put_ident,
}

-- The end mark is 2, an identifier 1, and any other type 0.
abbrev pub sort_of : TokenType → ℕ
sort_of t_eof = 2
sort_of t_ident = 1
sort_of _ = 0

-- A token before the end: its text, where it is an identifier, fits the array with a terminator, and
-- its line is not behind `line`.
pub record TokenIsValid (line : ℕ) (x : Token) : Type 0 where
  pub no_end : sort_of x.type ≢ 2
  pub fits : sort_of x.type ≡ 1 → length x.ident < 32
  pub lined : x.line ≤ line

-- While the lexer runs.
pub record LexerIsValid (s : Lexer) : Type 0 where
  pub slots : length s.token_stream ≡ 1024
  pub room : s.t ≤ 1023
  pub few_errors : length s.errors ≤ 64
  pub tokens : (i : ℕ) → i < s.t → TokenIsValid s.line (get_or s.token_stream i no_token)

-- What a finished run leaves.
pub record StreamIsValid (s : Lexer) : Type 0 where
  pub slots : length s.token_stream ≡ 1024
  pub room : s.token_count ≤ 1023
  pub few_errors : length s.errors ≤ 64
  pub end_mark : (get_or s.token_stream s.token_count no_token).type ≡ t_eof
  pub tokens : (i : ℕ) → i < s.token_count → TokenIsValid s.line (get_or s.token_stream i no_token)

length-add_error-le :
    (line : ℕ) (msg : List ℕ) (errors : List CompileError)
    → length errors ≤ 64
    → length (add_error line msg errors) ≤ 64
unfolding add_error
length-add_error-le line msg errors h =
    ground (arith, length-append errors (record { line = line; msg = copy_cstr msg 128 } ∷ []))

pub report-LexerIsValid : (msg : List ℕ) (s : Lexer) → LexerIsValid s → LexerIsValid (report msg s)
unfolding report
report-LexerIsValid msg s v = record {
  slots = v.slots;
  room = v.room;
  few_errors = length-add_error-le s.line msg s.errors v.few_errors;
  tokens = v.tokens;
}

pub set_line-LexerIsValid : (s : Lexer) → LexerIsValid s → LexerIsValid (set_line s)
unfolding set_line set_token
set_line-LexerIsValid s v =
    let x : Token = record (this_token s) { line = s.line } in
    record {
      slots = length-set s.token_stream s.t x ∙ v.slots;
      room = v.room;
      few_errors = v.few_errors;
      tokens = λ i h.
          subst (TokenIsValid s.line)
            (sym (get_or-set_ne s.token_stream s.t i x no_token (omega arith))) (v.tokens i h);
    }

-- One more token.
put-LexerIsValid :
    (s : Lexer) (x : Token)
    → LexerIsValid s
    → s.t < 1023
    → TokenIsValid s.line x
    → LexerIsValid (record (set_token x s) { t = s.t + 1 })
unfolding set_token
put-LexerIsValid s x v h w = record {
  slots = length-set s.token_stream s.t x ∙ v.slots;
  room = omega arith;
  few_errors = v.few_errors;
  tokens = tokens;
}
  where
    tokens :
        (i : ℕ) → i < s.t + 1 → TokenIsValid s.line (get_or (set s.token_stream s.t x) i no_token)
    tokens i p = elim (ℕ_discrete s.t i) [
      | yes e ↦ rw (← e, get_or-set_self s.token_stream s.t x no_token (omega (arith, v.slots))) w
      | no n ↦ rw (get_or-set_ne s.token_stream s.t i x no_token n) (v.tokens i (omega arith))
    ]

pub put_type-LexerIsValid :
    (type : TokenType) (s : Lexer)
    → LexerIsValid s
    → s.t < 1023
    → sort_of type ≡ 0
    → LexerIsValid (put_type type s)
unfolding put_type
put_type-LexerIsValid type s v h z =
    put-LexerIsValid s (record (this_token s) { type = type; line = s.line }) v h
      (record {
        no_end = λ e. omega (arith, z, e);
        fits = λ e. absurd (omega (arith, z, e));
        lined = omega arith;
      })

pub put_number-LexerIsValid :
    (val : ℕ) (s : Lexer) → LexerIsValid s → s.t < 1023 → LexerIsValid (put_number val s)
unfolding put_number
put_number-LexerIsValid val s v h =
    put-LexerIsValid s (record (this_token s) { type = t_number; value = val; line = s.line }) v h
      (record { no_end = λ e. omega arith; fits = λ e. absurd (omega arith); lined = omega arith })

pub put_ident-LexerIsValid :
    (buf : List ℕ) (s : Lexer) → LexerIsValid s → s.t < 1023 → LexerIsValid (put_ident buf s)
unfolding put_ident
put_ident-LexerIsValid buf s v h =
    put-LexerIsValid s
      (record (this_token s) { type = t_ident; ident = copy_cstr buf 32; line = s.line }) v h
      (record {
        no_end = λ e. omega arith;
        fits = λ e. length-copy_cstr-lt buf 32 (omega arith);
        lined = omega arith;
      })

pub keyword-sort : (buf : List ℕ) {type : TokenType} → keyword buf ≡ some type → sort_of type ≡ 0
unfolding keyword
keyword-sort buf e = ground arith

pub operator-sort :
    (c d : ℕ) {type : TokenType} {n : ℕ} → operator_of c d ≡ some (type, n) → sort_of type ≡ 0
unfolding operator_of
operator-sort c d e = ground arith
