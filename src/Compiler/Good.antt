-- ===== src/Compiler/Good.antt =====
-- compiler.cpp: what every step of the parser leaves true of its state.
use schwarz_kernel.Prelude.{ℕ, ◌+◌, ◌-◌, ◌≤◌, ◌<◌, ◌≡◌, ◌∙◌, List, length, length-append, arith}
use schwarz_kernel.Compiler.Errors
use schwarz_kernel.Compiler.Errors.{CompileError}
use schwarz_kernel.Compiler.State.{Parser, Place, token_place, var_place, code_place}
use schwarz_kernel.Compiler.Emitter.{write_byte, write_i32}
use schwarz_kernel.Compiler.Layout.{Laid}

-- `code` is the memory of the code buffer as it was, and the code before `start` is not touched.
pub record Run : Type 0 where
  pub start : ℕ
  pub code : ℕ → ℕ

-- The buffer has 65536 bytes.
pub record CodeKept (r : Run) (code_idx : ℕ) (code_buffer : ℕ → ℕ) : Type 0 where
  pub started : r.start ≤ code_idx
  pub room : code_idx ≤ 65536
  pub before : (i : ℕ) → i < r.start → code_buffer i ≡ r.code i
  pub behind : (i : ℕ) → 65536 ≤ i → code_buffer i ≡ r.code i

pub record Good (r : Run) (s : Parser) : Type 0 where
  pub kept : CodeKept r s.code_idx s.code_buffer
  pub few_errors : length s.errors ≤ 64
  pub few_vars : length s.vars ≤ 64
  pub laid : Laid 0 s.vars s.stack_size

-- A state with fewer than `fuel` of the 1024 tokens left.
pub record Left (r : Run) (fuel : ℕ) (s : Parser) : Type 0 where
  pub good : Good r s
  pub left : 1024 - s.curr < fuel

pub write_i32-before : (p v : ℕ) (code : ℕ → ℕ) (x : ℕ) → x < p → write_i32 p v code x ≡ code x
unfolding write_i32
write_i32-before p v code x h = ground arith

pub write_i32-behind : (p v : ℕ) (code : ℕ → ℕ) (x : ℕ) → p + 4 ≤ x → write_i32 p v code x ≡ code x
unfolding write_i32
write_i32-behind p v code x h = ground arith

pub add_error-few :
    (line : ℕ) (msg : List ℕ) (es : List CompileError)
    → length es ≤ 64
    → length (Errors.add_error line msg es) ≤ 64
unfolding Errors.add_error
add_error-few line msg es h = grind (arith, length-append)

pub add_error_tok-few :
    (line : ℕ) (msg detail : List ℕ) (es : List CompileError)
    → length es ≤ 64
    → length (Errors.add_error_tok line msg detail es) ≤ 64
unfolding Errors.add_error_tok
add_error_tok-few line msg detail es h = grind (arith, length-append)

pub Good-moved : (r : Run) (s : Parser) (n : ℕ) → Good r s → Good r (record s { curr = n })
Good-moved r s n g = record {
  kept = g.kept;
  few_errors = g.few_errors;
  few_vars = g.few_vars;
  laid = g.laid;
}

pub write_byte-CodeKept :
    (r : Run) (b i : ℕ) (code : ℕ → ℕ)
    → i < 65536
    → CodeKept r i code
    → CodeKept r (i + 1) (write_byte i b code)
write_byte-CodeKept r b i code h k = record {
  started = omega (arith, k.started);
  room = omega (arith, h);
  before = λ x l. ground (arith, k.before x l, k.started);
  behind = λ x l. ground (arith, k.behind x l, h);
}

pub write_i32-CodeKept :
    (r : Run) (p v i : ℕ) (code : ℕ → ℕ)
    → r.start ≤ p
    → p + 4 ≤ 65536
    → CodeKept r i code
    → CodeKept r i (write_i32 p v code)
write_i32-CodeKept r p v i code lo hi k = record {
  started = k.started;
  room = k.room;
  before = λ x l. write_i32-before p v code x (omega (arith, l, lo)) ∙ k.before x l;
  behind = λ x l. write_i32-behind p v code x (omega (arith, l, hi)) ∙ k.behind x l;
}

pub Good-add_error :
    {r : Run} {s : Parser} (line : ℕ) (msg : List ℕ)
    → Good r s
    → Good r (record s { errors = Errors.add_error line msg s.errors })
Good-add_error {s = s} line msg g = record {
  kept = g.kept;
  few_errors = add_error-few line msg s.errors g.few_errors;
  few_vars = g.few_vars;
  laid = g.laid;
}

pub Good-add_error_tok :
    {r : Run} {s : Parser} (line : ℕ) (msg detail : List ℕ)
    → Good r s
    → Good r (record s { errors = Errors.add_error_tok line msg detail s.errors })
Good-add_error_tok {s = s} line msg detail g = record {
  kept = g.kept;
  few_errors = add_error_tok-few line msg detail s.errors g.few_errors;
  few_vars = g.few_vars;
  laid = g.laid;
}

-- A place outside its array, which the parser in this state is at: a token at most three behind the next one, the first slot behind
-- the variables, or the place of a patch whose four bytes do not all lie in the buffer.
unfoldable pub IsOutside : Parser → Place → Type 0
IsOutside s (token_place i) = (1024 ≤ i) × (i ≤ s.curr + 3)
IsOutside s (var_place i) = (64 ≤ i) × (i ≡ length s.vars)
IsOutside s (code_place i) = (65536 < i + 4) × (i ≤ 65536)

pub record Overrun (r : Run) (p : Place) (s : Parser) : Type 0 where
  pub good : Good r s
  pub outside : IsOutside s p
