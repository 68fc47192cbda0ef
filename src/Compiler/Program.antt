-- ===== src/Compiler/Program.antt =====
-- compiler.cpp: `parse_and_compile`.
use schwarz_kernel.Prelude.{ℕ, zero, suc, ◌+◌, ◌-◌, ◌%◌, ◌^◌, false, [], ◌==◌, if◌then◌else◌}
use schwarz_kernel.Compiler.Tokens.{t_eof}
use schwarz_kernel.Compiler.State.{Parser, Action, pure, out_of_fuel, gets, modify, ◌>>=◌, ◌>>◌}
use schwarz_kernel.Compiler.Vars.{is_negative}
use schwarz_kernel.Compiler.Emitter.{
  emit_push_rbp, emit_mov_rbp_rsp, emit_sub_rsp, emit_mov_rax_imm64, patch_i32,
}
use schwarz_kernel.Compiler.Parser.{is_type, peek}
use schwarz_kernel.Compiler.Control.{code_position, leave_code, statement}

unfoldable pub vars_reset : Parser → Parser
vars_reset s = record s { vars = []; stack_size = 0 }

unfoldable pub errors_reset : Parser → Parser
errors_reset s = record s { errors = [] }

-- `curr = 0; code_idx = 0; explicit_return_seen = false; vars_reset(); errors_reset();`
unfoldable pub reset : Action (Unit {0})
unfolding modify
reset = modify λ s.
    errors_reset (vars_reset (record s { curr = 0; code_idx = 0; explicit_return_seen = false }))

unfoldable pub statements : ℕ → Action (Unit {0})
unfolding pure out_of_fuel
statements zero = out_of_fuel
statements (suc n) = do
  t ← peek
  if is_type t_eof t then pure tt else statement (suc n) >> statements n

-- `%` of an int takes the sign of the int.
unfoldable pub frame_size : ℕ → ℕ
frame_size stack_size =
    let m = if is_negative stack_size then (2 ^ 32 - stack_size) % 16 else stack_size % 16 in
    let padded =
      if is_negative stack_size
      then (stack_size + 16 + m) % 2 ^ 32
      else (stack_size + 16 - m) % 2 ^ 32 in
    let frame = if m == 0 then stack_size else padded in if frame == 0 then 16 else frame

unfoldable pub patch_frame : ℕ → Action (Unit {0})
unfolding gets
patch_frame patch = do
  stack_size ← gets λ s. s.stack_size
  patch_i32 (patch + 3) (frame_size stack_size)

-- What follows the prologue, up to the frame's size.
unfoldable pub compile_body : ℕ → Action (Unit {0})
compile_body n = do statements n; emit_mov_rax_imm64 0; leave_code

unfoldable pub parse_and_compile : ℕ → Action (Unit {0})
parse_and_compile n = do
  reset
  emit_push_rbp
  emit_mov_rbp_rsp
  patch ← code_position
  emit_sub_rsp 0
  compile_body n
  patch_frame patch
