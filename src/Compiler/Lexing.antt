-- ===== src/Compiler/Lexing.antt =====
-- What the branches of the lexer and a whole run leave in the stream.
use schwarz_kernel.Prelude.{
  ℕ, zero, suc, ◌+◌, ◌<◌, ◌≡◌, refl, sym, ap, subst, ◌∙◌, inl, inr, some, List, [], ◌∷◌, ◌==◌,
  length, length-set, get_or-set_self, get_or-set_ne, arith, Bool-cases, Option-cases, eq_of_some,
}
use schwarz_kernel.Compiler.Tokens.{t_eof, t_unknown, keyword}
use schwarz_kernel.Compiler.Lexer.{
  Token, no_token, Lexer, peek, scan_word, scan_number, operator_of, decode_escape_char,
}
use schwarz_kernel.Compiler.Lex.{
  Step, going, stopped, report, set_token, this_token, set_line, lex_word, lex_number,
  close_literal, lex_literal, lex_operator, lex_step, lex_loop, finish, lex, long_literal,
  open_literal, bad_escape, unknown_char, too_many_tokens,
}
use schwarz_kernel.Compiler.Consumption.{lex_ends}
use schwarz_kernel.Compiler.Stream.{
  TokenIsValid, LexerIsValid, StreamIsValid, report-LexerIsValid, set_line-LexerIsValid,
  put_type-LexerIsValid, put_number-LexerIsValid, put_ident-LexerIsValid, keyword-sort,
  operator-sort,
}

abbrev pub StepIsValid : Step → Type 0
StepIsValid (going s rest) = LexerIsValid s
StepIsValid (stopped s) = LexerIsValid s

lex_word-StepIsValid :
    (s : Lexer) (src : List ℕ) → LexerIsValid s → s.t < 1023 → StepIsValid (lex_word s src)
unfolding lex_word
lex_word-StepIsValid s src v h = elim (Option-cases (keyword (scan_word 31 src).0)) [
  | inl e ↦ rw (e, lex_word) (put_ident-LexerIsValid (scan_word 31 src).0 s v h)
  | inr (type, e) ↦
      rw (e, lex_word) (put_type-LexerIsValid type s v h (keyword-sort (scan_word 31 src).0 e))
]

close_literal-StepIsValid :
    (val : ℕ) (s : Lexer) (src : List ℕ)
    → LexerIsValid s
    → s.t < 1023
    → StepIsValid (close_literal val s src)
unfolding close_literal report
close_literal-StepIsValid val s src v h = ground (
  arith,
  put_number-LexerIsValid val s v h,
  put_number-LexerIsValid val (report long_literal s) (report-LexerIsValid long_literal s v) h,
)

lex_literal-StepIsValid :
    (s : Lexer) (src : List ℕ) → LexerIsValid s → s.t < 1023 → StepIsValid (lex_literal s src)
unfolding lex_literal
lex_literal-StepIsValid s [] v h = report-LexerIsValid open_literal s v
lex_literal-StepIsValid s (c ∷ []) v h = elim (Bool-cases (c == 92)) [
  | inl e ↦ rw (e, lex_literal) (report-LexerIsValid bad_escape s v)
  | inr e ↦ rw (e, lex_literal) (close_literal-StepIsValid c s [] v h)
]
lex_literal-StepIsValid s (c ∷ d ∷ src) v h = elim (Bool-cases (c == 92)) [
  | inl e ↦ rw (e, lex_literal) (close_literal-StepIsValid (decode_escape_char d) s src v h)
  | inr e ↦ rw (e, lex_literal) (close_literal-StepIsValid c s (d ∷ src) v h)
]

lex_operator-StepIsValid :
    (s : Lexer) (c : ℕ) (src : List ℕ)
    → LexerIsValid s
    → s.t < 1023
    → StepIsValid (lex_operator s c src)
unfolding lex_operator report
lex_operator-StepIsValid s c src v h = elim (Option-cases (operator_of c (peek src))) [
  | inl e ↦
      rw (e, lex_operator)
        (put_type-LexerIsValid t_unknown (report (unknown_char c) s)
          (report-LexerIsValid (unknown_char c) s v) h refl)
  | inr ((type, n), e) ↦
      rw (e, lex_operator) (put_type-LexerIsValid type s v h (operator-sort c (peek src) e))
]

-- A new line: no token is behind it.
next_line-LexerIsValid :
    (s : Lexer) → LexerIsValid s → LexerIsValid (record s { line = s.line + 1 })
next_line-LexerIsValid s v = record {
  slots = v.slots;
  room = v.room;
  few_errors = v.few_errors;
  tokens = λ i h.
      let w = v.tokens i h in
      record { no_end = w.no_end; fits = w.fits; lined = omega (arith, w.lined) };
}

lex_step-StepIsValid :
    (s : Lexer) (c : ℕ) (src : List ℕ) → LexerIsValid s → StepIsValid (lex_step s c src)
unfolding lex_step lex_number set_line set_token
lex_step-StepIsValid s c src v =
    let s' : Lexer = set_line s in
    let w = set_line-LexerIsValid s v in
    ground (
      arith,
      v,
      next_line-LexerIsValid s v,
      report-LexerIsValid too_many_tokens s v,
      lex_word-StepIsValid s' (c ∷ src) w,
      put_number-LexerIsValid (scan_number (c ∷ src)).0 s' w,
      lex_literal-StepIsValid s' src w,
      lex_operator-StepIsValid s' c src w,
    )

lex_loop-LexerIsValid :
    (fuel : ℕ) (s : Lexer) (src : List ℕ) {s' : Lexer}
    → LexerIsValid s
    → lex_loop fuel s src ≡ some s'
    → LexerIsValid s'
unfolding lex_loop
lex_loop-LexerIsValid zero s src v e = cc
lex_loop-LexerIsValid (suc fuel) s [] v e = subst LexerIsValid (eq_of_some e) v
lex_loop-LexerIsValid (suc fuel) s (c ∷ src) v e =
    go (lex_step s c src) (lex_step-StepIsValid s c src v)
      (λ s1 rest s2. lex_loop-LexerIsValid fuel s1 rest) e
  where
    go :
        (r : Step) {s' : Lexer}
        → StepIsValid r
        → ((s1 : Lexer) (rest : List ℕ) (s2 : Lexer)
            → LexerIsValid s1
            → lex_loop fuel s1 rest ≡ some s2
            → LexerIsValid s2)
        → (elim r [ going s1 rest ↦ lex_loop fuel s1 rest | stopped s1 ↦ some s1 ]) ≡ some s'
        → LexerIsValid s'
    go (going s1 rest) w more e' = more s1 rest _ w e'
    go (stopped s1) w more e' = subst LexerIsValid (eq_of_some e') w

finish-StreamIsValid : (s : Lexer) → LexerIsValid s → StreamIsValid (finish s)
unfolding finish set_token
finish-StreamIsValid s v =
    let x : Token = record (this_token s) { type = t_eof; line = s.line } in
    record {
      slots = length-set s.token_stream s.t x ∙ v.slots;
      room = v.room;
      few_errors = v.few_errors;
      end_mark =
          ap (λ (y : Token). y.type)
            (get_or-set_self s.token_stream s.t x no_token (omega (arith, v.slots, v.room)));
      tokens = λ i h.
          subst (TokenIsValid s.line)
            (sym (get_or-set_ne s.token_stream s.t i x no_token (omega arith))) (v.tokens i h);
    }

lex-valid :
    (stream : List Token) (src : List ℕ) {s : Lexer}
    → length stream ≡ 1024
    → lex stream src ≡ some s
    → StreamIsValid s
unfolding lex
lex-valid stream src h e = elim (Option-cases (lex_loop (length src + 1) start src)) [
  | inl z ↦ let e' = rw (z, lex) at e in cc
  | inr (s, z) ↦
      let e' = rw (z, lex) at e in
      subst StreamIsValid (eq_of_some e')
        (finish-StreamIsValid s (lex_loop-LexerIsValid (length src + 1) start src begun z))
]
  where
    start : Lexer
    start = record { token_stream = stream; token_count = 0; errors = []; t = 0; line = 1 }

    begun : LexerIsValid start
    begun = record {
      slots = h;
      room = omega arith;
      few_errors = omega arith;
      tokens = λ i p. absurd (omega arith);
    }

-- Whatever the text, and whatever an earlier run has left in the 1024 slots of the stream, the lexer
-- ends: a round for each character and one more are enough. It writes at most 1023 tokens and 64
-- errors; the end mark stands right behind the last token and at no token before; an identifier fits
-- its array of 32 bytes; no token's line is behind the last line.
pub lex-StreamIsValid :
    (stream : List Token) (src : List ℕ)
    → length stream ≡ 1024
    → (s : Lexer) × (lex stream src ≡ some s) × StreamIsValid s
lex-StreamIsValid stream src h =
    let (s, e) = lex_ends stream src in (s, e, lex-valid stream src h e)
