-- ===== src/Compiler/Consumption.antt =====
-- How much of the text a round of the lexer's loop takes.
use schwarz_kernel.Prelude.{
  ℕ, zero, suc, ◌+◌, ◌-◌, ◌*◌, ◌%◌, ◌^◌, ◌≤◌, ◌<◌, ◌≡◌, refl, inl, inr, true, false, some, List, [],
  ◌∷◌, ◌==◌, length, length-drop, arith, Bool-cases, Option-cases,
}
use schwarz_kernel.Compiler.Tokens.{TokenType, keyword}
use schwarz_kernel.Compiler.Lexer.{
  Lexer, Token, my_isdigit, my_isalpha, my_isalnum, peek, skip_line, scan_word, hex_digit, scan_hex,
  scan_decimal, scan_number, skip_literal, operator_of, decode_escape_char,
}
use schwarz_kernel.Compiler.Lex.{
  Step, going, stopped, lex_word, lex_number, close_literal, lex_literal, lex_operator, lex_step,
  lex_loop, set_line, lex, finish,
}

length-skip_line-le : (src : List ℕ) → length (skip_line src) ≤ length src
unfolding skip_line
length-skip_line-le [] = omega arith
length-skip_line-le (c ∷ src) = ground (arith, length-skip_line-le src)

length-skip_literal-le : (src : List ℕ) → length (skip_literal src) ≤ length src
unfolding skip_literal
length-skip_literal-le [] = omega arith
length-skip_literal-le (c ∷ src) = ground (arith, length-skip_literal-le src)

length-scan_word-le : (n : ℕ) (src : List ℕ) → length (scan_word n src).1 ≤ length src
unfolding scan_word
length-scan_word-le zero src = omega arith
length-scan_word-le (suc n) [] = omega arith
length-scan_word-le (suc n) (c ∷ src) = ground (arith, length-scan_word-le n src)

length-scan_word-lt :
    (n c : ℕ) (src : List ℕ)
    → my_isalpha c ≡ true
    → length (scan_word (suc n) (c ∷ src)).1 < suc (length src)
unfolding scan_word my_isalnum
length-scan_word-lt n c src h = ground (arith, h, length-scan_word-le n src)

length-scan_hex-le : (val : ℕ) (src : List ℕ) → length (scan_hex val src).1 ≤ length src
unfolding scan_hex
length-scan_hex-le val [] = omega arith
length-scan_hex-le val (c ∷ src) = elim (Option-cases (hex_digit c)) [
  | inl e ↦ rw (e, scan_hex) (omega arith)
  | inr (d, e) ↦ rw (e, scan_hex) (omega (arith, length-scan_hex-le ((val * 16 + d) % 2 ^ 64) src))
]

length-scan_decimal-le : (val : ℕ) (src : List ℕ) → length (scan_decimal val src).1 ≤ length src
unfolding scan_decimal
length-scan_decimal-le val [] = omega arith
length-scan_decimal-le val (c ∷ src) =
    ground (arith, length-scan_decimal-le ((val * 10 + (c - b'0')) % 2 ^ 64) src)

length-scan_decimal-lt :
    (val c : ℕ) (src : List ℕ)
    → my_isdigit c ≡ true
    → length (scan_decimal val (c ∷ src)).1 < suc (length src)
unfolding scan_decimal
length-scan_decimal-lt val c src h =
    rw h (omega (arith, length-scan_decimal-le ((val * 10 + (c - b'0')) % 2 ^ 64) src))

length-scan_number-lt :
    (c : ℕ) (src : List ℕ)
    → my_isdigit c ≡ true
    → length (scan_number (c ∷ src)).1 < suc (length src)
unfolding scan_number
length-scan_number-lt c [] h = length-scan_decimal-lt 0 c [] h
length-scan_number-lt c (x ∷ src) h =
    ground (arith, length-scan_hex-le 0 src, length-scan_decimal-lt 0 c (x ∷ src) h)

-- What a round leaves of a text is shorter than `n`.
abbrev pub Shorter : ℕ → Step → Type 0
Shorter n (going s rest) = length rest < n
Shorter n (stopped s) = Unit {0}

lex_word-Shorter :
    (s : Lexer) (c : ℕ) (src : List ℕ)
    → my_isalpha c ≡ true
    → Shorter (suc (length src)) (lex_word s (c ∷ src))
unfolding lex_word
lex_word-Shorter s c src h = elim (Option-cases (keyword (scan_word 31 (c ∷ src)).0)) [
  | inl e ↦ rw (e, lex_word) (length-scan_word-lt 30 c src h)
  | inr (type, e) ↦ rw (e, lex_word) (length-scan_word-lt 30 c src h)
]

close_literal-Shorter :
    (val : ℕ) (s : Lexer) (src : List ℕ) → Shorter (suc (length src)) (close_literal val s src)
unfolding close_literal
close_literal-Shorter val s src =
    ground (arith, length-skip_literal-le src, length-drop 1 (skip_literal src), length-drop 1 src)

Shorter-mono : (n m : ℕ) (r : Step) → n ≤ m → Shorter n r → Shorter m r
Shorter-mono n m (going s rest) h w = omega (arith, w)
Shorter-mono n m (stopped s) h w = tt

lex_literal-Shorter : (s : Lexer) (src : List ℕ) → Shorter (suc (length src)) (lex_literal s src)
unfolding lex_literal
lex_literal-Shorter s [] = tt
lex_literal-Shorter s (c ∷ []) = elim (Bool-cases (c == 92)) [
  | inl e ↦ rw (e, lex_literal) tt
  | inr e ↦ rw (e, lex_literal) (Shorter-mono 1 2 _ (omega arith) (close_literal-Shorter c s []))
]
lex_literal-Shorter s (c ∷ e ∷ src) = elim (Bool-cases (c == 92)) [
  | inl e' ↦
      rw (e', lex_literal)
        (Shorter-mono (suc (length src)) (suc (suc (suc (length src)))) _ (omega arith)
          (close_literal-Shorter (decode_escape_char e) s src))
  | inr e' ↦
      rw (e', lex_literal)
        (Shorter-mono (suc (suc (length src))) (suc (suc (suc (length src)))) _ (omega arith)
          (close_literal-Shorter c s (e ∷ src)))
]

operator_of-positive :
    (c d : ℕ) {type : TokenType} {n : ℕ} → operator_of c d ≡ some (type, n) → 0 < n
unfolding operator_of
operator_of-positive c d e = ground arith

lex_operator-Shorter :
    (s : Lexer) (c : ℕ) (src : List ℕ) → Shorter (suc (length src)) (lex_operator s c src)
unfolding lex_operator
lex_operator-Shorter s c src = elim (Option-cases (operator_of c (peek src))) [
  | inl e ↦ rw (e, lex_operator) (omega arith)
  | inr ((type, n), e) ↦
      rw (e, lex_operator)
        (omega (arith, length-drop n (c ∷ src), operator_of-positive c (peek src) e))
]

length-skip_line-lt :
    (c : ℕ) (src : List ℕ) → (c == 10) ≡ false → length (skip_line (c ∷ src)) < suc (length src)
unfolding skip_line
length-skip_line-lt c src h = rw h (omega (arith, length-skip_line-le src))

lex_step-Shorter :
    (s : Lexer) (c : ℕ) (src : List ℕ) → Shorter (suc (length src)) (lex_step s c src)
unfolding lex_step lex_number
lex_step-Shorter s c src = ground (
  arith,
  length-skip_line-lt c src,
  lex_word-Shorter (set_line s) c src,
  length-scan_number-lt c src,
  lex_literal-Shorter (set_line s) src,
  lex_operator-Shorter (set_line s) c src,
)

lex_loop_ends :
    (fuel : ℕ) (s : Lexer) (src : List ℕ)
    → length src < fuel
    → (s' : Lexer) × (lex_loop fuel s src ≡ some s')
unfolding lex_loop
lex_loop_ends zero s src h = absurd (omega arith)
lex_loop_ends (suc fuel) s [] h = (s, refl)
lex_loop_ends (suc fuel) s (c ∷ src) h =
    go (lex_step s c src) (lex_step-Shorter s c src) (lex_loop_ends fuel)
  where
    go :
        (r : Step)
        → Shorter (suc (length src)) r
        → ((s1 : Lexer) (rest : List ℕ)
            → length rest < fuel
            → (s' : Lexer) × (lex_loop fuel s1 rest ≡ some s'))
        → (s' : Lexer) × ((elim r [ going s1 rest ↦ lex_loop fuel s1 rest | stopped s1 ↦ some s1 ])
            ≡ some s')
    go (going s1 rest) w ends = ends s1 rest (omega (arith, w, h))
    go (stopped s1) w ends = (s1, refl)

pub lex_ends : (stream : List Token) (src : List ℕ) → (s : Lexer) × (lex stream src ≡ some s)
unfolding lex
lex_ends stream src =
    let start : Lexer = record {
      token_stream = stream;
      token_count = 0;
      errors = [];
      t = 0;
      line = 1;
    } in
    let (s, e) = lex_loop_ends (length src + 1) start src (omega arith) in
    rw (e, lex) (finish s, refl)
