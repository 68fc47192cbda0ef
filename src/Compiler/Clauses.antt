-- ===== src/Compiler/Clauses.antt =====
-- compiler.cpp: blocks and the first and third part of `for`. The calls of `expr` and `statement` are arguments.
use schwarz_kernel.Prelude.{
  ℕ, zero, suc, Bool, true, false, ◌||◌, List, ◌==◌, ltb, if◌then◌else◌, codes,
}
use schwarz_kernel.Compiler.Tokens.{
  VarType, TokenType, is_type_token, t_ident, t_assign, t_pluseq, t_minuseq, t_stareq, t_slasheq,
  t_percenteq, t_plusplus, t_minusminus, t_semicolon, t_rparen, t_lbrace, t_rbrace, t_eof,
}
use schwarz_kernel.Compiler.State.{
  Var, Action, pure, out_of_fuel, ◌>>=◌, ◌>>◌, if_some, add_error, add_error_tok,
}
use schwarz_kernel.Compiler.Vars.{
  is_negative, var_find, var_find_ptr, var_alloc, var_mark_initialized,
}
use schwarz_kernel.Compiler.Parser.{
  is_type, peek, peek_next, peek_line, peek_name, consume, consume_name, expect, parse_type,
  parse_array_suffix, emit_store_rax_var, emit_inc_var, emit_dec_var, emit_compound_assign,
}

unfoldable pub block_loop : ℕ → Action (Unit {0}) → Action (Unit {0})
unfolding pure out_of_fuel
block_loop zero statement' = out_of_fuel
block_loop (suc n) statement' = do
  t ← peek
  if is_type t_rbrace t || is_type t_eof t then pure tt else statement' >> block_loop n statement'

unfoldable pub braces : ℕ → Action (Unit {0}) → Action (Unit {0})
unfolding pure
braces n statement' = do consume; block_loop n statement'; expect t_rbrace; pure tt

unfoldable pub block : ℕ → Action (Unit {0}) → Action (Unit {0})
block n statement' = do t ← peek; if is_type t_lbrace t then braces n statement' else statement'

unfoldable pub is_compound : TokenType → Bool
is_compound t =
    is_type t_pluseq t
    || is_type t_minuseq t
    || is_type t_stareq t
    || is_type t_slasheq t
    || is_type t_percenteq t

-- The checks before a variable is written: it is declared and it is no array. `stop` follows an error.
unfoldable pub with_scalar :
    Action (Unit {0}) → ℕ → List ℕ → List ℕ → List ℕ → (Var → Action (Unit {0})) → Action (Unit {0})
with_scalar stop line undeclared whole name write = do
  v ← var_find_ptr name
  if_some v (add_error_tok line undeclared name >> stop)
      λ w. if ltb 0 w.elem_count then add_error_tok line whole name >> stop else write w

-- `expr(); emit_store_rax_var(v->offset, v->vtype); var_mark_initialized(name);`
unfoldable pub assign : Action VarType → List ℕ → Var → Action (Unit {0})
assign expr' name v = do expr'; emit_store_rax_var v.offset v.vtype; var_mark_initialized name

-- `expr(); emit_compound_assign(name, op, v->offset);`
unfoldable pub update : Action VarType → List ℕ → TokenType → Var → Action (Unit {0})
update expr' name op v = expr' >> emit_compound_assign name op v.offset

unfoldable pub initialize : Action VarType → ℕ → List ℕ → VarType → ℕ → Action (Unit {0})
unfolding pure
initialize expr' line name vt array_len = do
  off ← var_alloc name (record vt { array_len = array_len }) array_len
  if ltb 0 array_len then var_mark_initialized name else pure tt
  t ← peek
  if is_type t_assign t
      then (if ltb 0 array_len
          then add_error line
              (codes "Inicjalizacja tablicy pojedynczym wyrazeniem nie jest obslugiwana")
          else (do consume; expr'; emit_store_rax_var off vt; var_mark_initialized name))
      else pure tt

unfoldable pub for_variable : Action VarType → ℕ → VarType → Action (Unit {0})
unfolding pure
for_variable expr' line vt = do
  name ← consume_name
  off ← var_find name
  if is_negative off
      then (do
        array_len ← parse_array_suffix
        if is_negative array_len then pure tt else initialize expr' line name vt array_len)
      else add_error_tok line (codes "Ponowna deklaracja zmiennej: ") name

unfoldable pub for_declaration : Action VarType → Action (Unit {0})
for_declaration expr' = do
  line ← peek_line
  vt ← parse_type
  t ← peek
  if is_type t_ident t
      then for_variable expr' line vt
      else add_error line (codes "Po typie oczekiwano nazwy zmiennej")

unfoldable pub for_assignment : Action VarType → Action (Unit {0})
unfolding pure
for_assignment expr' = do
  name ← peek_name
  line ← peek_line
  next ← peek_next
  if is_type t_assign next
      then (do
        consume
        consume
        with_scalar (pure tt) line (codes "Niezadeklarowana zmienna: ")
            (codes "Nie mozna przypisac do calej tablicy: ") name (assign expr' name))
      else if is_compound next
      then (do
        consume
        op ← consume
        with_scalar (pure tt) line (codes "Niezadeklarowana zmienna: ")
            (codes "Nie mozna modyfikowac calej tablicy: ") name (update expr' name op.type))
      else expr' >> pure tt

unfoldable pub for_init : Action VarType → Action (Unit {0})
unfolding pure
for_init expr' = do
  t ← peek
  if is_type t_semicolon t
      then pure tt
      else if is_type_token t
      then for_declaration expr'
      else if is_type t_ident t
      then for_assignment expr'
      else expr' >> pure tt

unfoldable pub step_code : Bool → Var → Action (Unit {0})
step_code up v = if up then emit_inc_var v.offset v.vtype else emit_dec_var v.offset v.vtype

-- No error where there is no such variable.
unfoldable pub step_scalar : Bool → List ℕ → Action (Unit {0})
unfolding pure
step_scalar up name = do
  v ← var_find_ptr name
  if_some v (pure tt) λ w. if w.elem_count == 0 then step_code up w else pure tt

unfoldable pub post_assign : Action VarType → List ℕ → TokenType → Var → Action (Unit {0})
post_assign expr' name op v =
    if is_type t_assign op then assign expr' name v else update expr' name op v

unfoldable pub for_post_named : Action VarType → Action (Unit {0})
unfolding pure
for_post_named expr' = do
  name ← peek_name
  line ← peek_line
  next ← peek_next
  if is_type t_plusplus next || is_type t_minusminus next
      then (do consume; consume; step_scalar (is_type t_plusplus next) name)
      else if is_type t_assign next || is_compound next
      then (do
        consume
        op ← consume
        with_scalar (pure tt) line (codes "Niezadeklarowana zmienna: ")
            (codes "Nie mozna modyfikowac calej tablicy: ") name (post_assign expr' name op.type))
      else expr' >> pure tt

unfoldable pub for_post_step : Bool → Action (Unit {0})
unfolding pure
for_post_step up = do
  consume
  t ← peek
  if is_type t_ident t then consume_name >>= step_scalar up else pure tt

unfoldable pub for_post : Action VarType → Action (Unit {0})
unfolding pure
for_post expr' = do
  t ← peek
  if is_type t_rparen t
      then pure tt
      else if is_type t_ident t
      then for_post_named expr'
      else if is_type t_plusplus t
      then for_post_step true
      else if is_type t_minusminus t
      then for_post_step false
      else expr' >> pure tt
