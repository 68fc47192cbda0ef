-- ===== src/Compiler/Errors.antt =====
-- compiler.cpp: the bounded text helpers and the list of at most 64 errors.
use schwarz_kernel.Prelude.{
  ℕ, ◌-◌, none, some, List, [], ◌∷◌, ◌++◌, leb, if◌then◌else◌, take, length, get_elem?, copy_cstr,
}

pub record CompileError : Type 0 where
  pub line : ℕ
  pub msg : List ℕ

-- `my_strcat`, on the text that an array of `max` bytes holds.
unfoldable pub my_strcat : List ℕ → List ℕ → ℕ → List ℕ
my_strcat dst src max = dst ++ take (max - 1 - length dst) src

-- `error_list[0..error_count)` is the list; `my_strcpy` into 128 bytes is `copy_cstr`.
unfoldable pub add_error : ℕ → List ℕ → List CompileError → List CompileError
add_error line msg errors =
    if leb 64 (length errors)
    then errors
    else errors ++ record { line = line; msg = copy_cstr msg 128 } ∷ []

unfoldable pub add_error_tok : ℕ → List ℕ → List ℕ → List CompileError → List CompileError
add_error_tok line msg detail errors =
    if leb 64 (length errors)
    then errors
    else errors ++ record { line = line; msg = my_strcat (copy_cstr msg 128) detail 128 } ∷ []

unfoldable pub compile_error_count : List CompileError → ℕ
compile_error_count errors = length errors

-- For an index at or above 0.
unfoldable pub compile_get_error : List CompileError → ℕ → ℕ × List ℕ
compile_get_error errors idx = elim (get_elem? errors idx) [
  | none ↦ (0, [])
  | some e ↦ (e.line, e.msg)
]
