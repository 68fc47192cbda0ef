-- ===== src/Compiler/ProgramKeeps.antt =====
-- compiler.cpp: the phases of `parse_and_compile`.
use schwarz_kernel.Prelude.{ℕ, zero, suc, ◌≡◌, refl, false, ◌∙◌, []}
use schwarz_kernel.Compiler.Tokens.{t_eof}
use schwarz_kernel.Compiler.State.{
  Parser, Place, finished, out_of_bounds, pure, gets, modify, and_then, ◌>>=◌,
}
use schwarz_kernel.Compiler.Emitter.{
  emit_byte, emit, emit_i32, i32_bytes, emit_push_rbp, emit_mov_rbp_rsp, emit_sub_rsp, write_byte,
  write_i32, patch_i32,
}
use schwarz_kernel.Compiler.Parser.{is_type, type_number}
use schwarz_kernel.Compiler.Control.{code_position}
use schwarz_kernel.Compiler.Program.{
  vars_reset, errors_reset, reset, statements, frame_size, patch_frame, compile_body,
  parse_and_compile,
}
use schwarz_kernel.Compiler.Good.{Run}
use schwarz_kernel.Compiler.Keeps.{Keeps, Keeps-pure, Keeps-zero}
use schwarz_kernel.Compiler.ParserKeeps.{parser_rules}
use schwarz_kernel.Compiler.Advances.{Advances-bind, Keeps-peek_unless}
use schwarz_kernel.Compiler.ControlKeeps.{Keeps-leave_code, Advances-statement}

module _ {r : Run} where
  pub Keeps-statements : (n : ℕ) → Keeps r n (statements n)
  unfolding statements type_number
  Keeps-statements zero = Keeps-zero _
  Keeps-statements (suc n) =
      Keeps-peek_unless (λ t. is_type t_eof t) (λ _. pure tt) _ refl (λ _. Keeps-pure tt)
        (λ t ne. Advances-bind _ _ (Advances-statement r n t ne) λ _. Keeps-statements n)

  pub Keeps-compile_body : (n : ℕ) → Keeps r n (compile_body n)
  unfolding compile_body
  Keeps-compile_body n = search (parser_rules, Keeps-statements, Keeps-leave_code) depth 30

-- The code of the prologue, with a frame of no size yet.
unfoldable pub prologue_code : (ℕ → ℕ) → ℕ → ℕ
prologue_code code =
    let byte : ℕ → ℕ → (ℕ → ℕ) → ℕ → ℕ = write_byte in
    byte 10 0 (
      byte 9 0 (
        byte 8 0 (
          byte 7 0 (
            byte 6 0xEC (
              byte 5 0x81
                (byte 4 0x48 (byte 3 0xE5 (byte 2 0x89 (byte 1 0x48 (byte 0 0x55 code))))))))))

unfoldable pub prologue : Parser → Parser
prologue s = record {
  tokens = s.tokens;
  curr = 0;
  expr_ok = s.expr_ok;
  explicit_return_seen = false;
  errors = [];
  vars = [];
  stack_size = 0;
  code_buffer = prologue_code s.code_buffer;
  code_idx = 11;
}

unfoldable pub patched : Parser → Parser
patched s = record s { code_buffer = write_i32 7 (frame_size s.stack_size) s.code_buffer }

-- After the prologue there are the body and the patch of the frame's size.
compile-phases :
    (n : ℕ) (s : Parser)
    → parse_and_compile n s ≡ and_then (compile_body n (prologue s)) (λ _. patch_frame 4)
unfolding parse_and_compile reset vars_reset errors_reset emit_push_rbp emit_mov_rbp_rsp
    emit_sub_rsp emit emit_byte emit_i32 i32_bytes code_position pure gets modify ◌>>=◌ and_then
    prologue prologue_code
compile-phases n s = refl

-- A body that returns is followed by the patch.
pub compile-finished :
    (n : ℕ) (s s' : Parser)
    → compile_body n (prologue s) ≡ finished tt s'
    → parse_and_compile n s ≡ finished tt (patched s')
unfolding patch_frame patch_i32 gets ◌>>=◌ and_then patched
compile-finished n s s' e = compile-phases n s ∙ rw e refl

-- A body that ends at an access outside an array is the end of compilation.
pub compile-out_of_bounds :
    (n : ℕ) (s s' : Parser) (p : Place)
    → compile_body n (prologue s) ≡ out_of_bounds p s'
    → parse_and_compile n s ≡ out_of_bounds p s'
unfolding and_then
compile-out_of_bounds n s s' p e = compile-phases n s ∙ rw e refl
