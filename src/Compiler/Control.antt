-- ===== src/Compiler/Control.antt =====
-- compiler.cpp: the statements that jump, and `statement` itself.
use schwarz_kernel.Prelude.{ℕ, zero, suc, ◌+◌, true, ◌&&◌, ◌||◌, List, if◌then◌else◌, codes, sub32}
use schwarz_kernel.Compiler.Tokens.{
  VarType, TokenType, token_name, is_type_token, t_return, t_if, t_else, t_while, t_do, t_for,
  t_ident, t_number, t_eof, t_assign, t_star, t_plusplus, t_minusminus, t_semicolon, t_lparen,
  t_rparen,
}
use schwarz_kernel.Compiler.State.{
  Action, pure, out_of_fuel, gets, modify, ◌>>=◌, ◌>>◌, add_error, add_error_tok,
}
use schwarz_kernel.Compiler.Emitter.{
  emit_mov_rax_imm64, emit_mov_rsp_rbp, emit_pop_rbp, emit_ret, emit_jmp, emit_jz, emit_jnz,
  emit_jmp_back, patch_i32, patch_jmp,
}
use schwarz_kernel.Compiler.Parser.{is_type, peek, peek_next, peek_line, consume, expect}
use schwarz_kernel.Compiler.Expr.{expr}
use schwarz_kernel.Compiler.Clauses.{block, for_init, for_post}
use schwarz_kernel.Compiler.Statement.{
  end_statement, declaration, store_through, named_statement, prefix_statement, assign_literal,
}

-- `code_idx`
unfoldable pub code_position : Action ℕ
unfolding gets
code_position = gets λ s. s.code_idx

unfoldable pub set_return_seen : Action (Unit {0})
unfolding modify
set_return_seen = modify λ s. record s { explicit_return_seen = true }

unfoldable pub leave_code : Action (Unit {0})
leave_code = do emit_mov_rsp_rbp; emit_pop_rbp; emit_ret

unfoldable pub return_statement : Action VarType → Action (Unit {0})
unfolding pure
return_statement expr' = do
  set_return_seen
  consume
  t ← peek
  if is_type t_semicolon t then emit_mov_rax_imm64 0 else expr' >> pure tt
  leave_code
  end_statement

-- `()` in place of a condition
unfoldable pub empty_condition : List ℕ → Action (Unit {0})
unfolding pure
empty_condition msg = do line ← peek_line; add_error line msg; consume; pure tt

unfoldable pub while_statement : Action VarType → Action (Unit {0}) → Action (Unit {0})
while_statement expr' block' = do
  consume
  expect t_lparen
  loop_start ← code_position
  t ← peek
  if is_type t_rparen t
      then empty_condition (codes "Pusty warunek w while()") >> block'
      else do expr'; expect t_rparen; jz ← emit_jz; block'; emit_jmp_back loop_start; patch_jmp jz

-- The jump back where the condition holds.
unfoldable pub jump_if : ℕ → Action (Unit {0})
jump_if loop_start = do off_pos ← emit_jnz; patch_i32 off_pos (sub32 loop_start (off_pos + 4))

unfoldable pub do_statement : Action VarType → Action (Unit {0}) → Action (Unit {0})
do_statement expr' block' = do
  consume
  loop_start ← code_position
  block'
  expect t_while
  expect t_lparen
  t ← peek
  if is_type t_rparen t
      then empty_condition (codes "Pusty warunek w do-while()") >> end_statement
      else do expr'; expect t_rparen; expect t_semicolon; jump_if loop_start

-- What follows the condition of `for`; `leave` is the exit, which a loop without a condition lacks.
unfoldable pub for_body :
    Action VarType → Action (Unit {0}) → ℕ → Action (Unit {0}) → Action (Unit {0})
for_body expr' block' cond_start leave = do
  expect t_semicolon
  jmp_to_body ← emit_jmp
  post_start ← code_position
  for_post expr'
  expect t_rparen
  emit_jmp_back cond_start
  patch_jmp jmp_to_body
  block'
  emit_jmp_back post_start
  leave

unfoldable pub for_statement : Action VarType → Action (Unit {0}) → Action (Unit {0})
unfolding pure
for_statement expr' block' = do
  consume
  expect t_lparen
  for_init expr'
  expect t_semicolon
  cond_start ← code_position
  t ← peek
  if is_type t_semicolon t
      then for_body expr' block' cond_start (pure tt)
      else do expr'; jz ← emit_jz; for_body expr' block' cond_start (patch_jmp jz)

-- `if ()`
unfoldable pub if_without_condition : Action (Unit {0}) → Action (Unit {0})
unfolding pure
if_without_condition block' = do
  empty_condition (codes "Pusty warunek w if()")
  block'
  t ← peek
  if is_type t_else t then consume >> block' else pure tt

unfoldable pub if_with_condition : Action VarType → Action (Unit {0}) → Action (Unit {0})
if_with_condition expr' block' = do
  expr'
  expect t_rparen
  jz ← emit_jz
  block'
  t ← peek
  if is_type t_else t
      then (do consume; jmp ← emit_jmp; patch_jmp jz; block'; patch_jmp jmp)
      else patch_jmp jz

unfoldable pub if_statement : Action VarType → Action (Unit {0}) → Action (Unit {0})
if_statement expr' block' = do
  consume
  expect t_lparen
  t ← peek
  if is_type t_rparen t then if_without_condition block' else if_with_condition expr' block'

unfoldable pub stray_else : Action (Unit {0}) → Action (Unit {0})
stray_else block' = do
  line ← peek_line
  add_error line (codes "'else' bez poprzedzajacego 'if'")
  consume
  block'

unfoldable pub stray_token : TokenType → Action (Unit {0})
unfolding pure
stray_token t = do
  line ← peek_line
  add_error_tok line (codes "Nieoczekiwany token: ") (token_name t)
  consume
  pure tt

unfoldable pub statement_branch :
    ℕ → Action VarType → Action (Unit {0}) → TokenType → TokenType → Action (Unit {0})
statement_branch n expr' block' t next =
    if is_type_token t
    then declaration n expr'
    else if is_type t_star t && is_type t_ident next
    then store_through n expr'
    else if is_type t_ident t
    then named_statement n expr'
    else if is_type t_plusplus t || is_type t_minusminus t
    then prefix_statement n
    else if is_type t_number t && is_type t_assign next
    then assign_literal n
    else if is_type t_return t
    then return_statement expr'
    else if is_type t_while t
    then while_statement expr' block'
    else if is_type t_do t
    then do_statement expr' block'
    else if is_type t_for t
    then for_statement expr' block'
    else if is_type t_if t
    then if_statement expr' block'
    else if is_type t_else t
    then stray_else block'
    else stray_token t

-- The token after the next one, which is looked at only where the next one is `*` or a number.
unfoldable pub peek_after : TokenType → Action TokenType
unfolding pure
peek_after t = if is_type t_star t || is_type t_number t then peek_next else pure t_eof

unfoldable pub statement_with : ℕ → Action VarType → Action (Unit {0}) → Action (Unit {0})
statement_with n expr' block' = do
  t ← peek
  next ← peek_after t
  statement_branch n expr' block' t next

unfoldable pub statement : ℕ → Action (Unit {0})
statement zero s = out_of_fuel s
statement (suc n) s = statement_with (suc n) (expr n) (block n (statement n)) s
