-- ===== src/Compiler/Primary.antt =====
-- compiler.cpp: primary expressions. A `Var *` is the variable as it was found: what the source reads
-- through it later is never changed in between.
use schwarz_kernel.Prelude.{
  ℕ, Bool, true, false, not, ◌&&◌, List, [], ◌∷◌, ◌==◌, ltb, if◌then◌else◌, codes,
}
use schwarz_kernel.Compiler.Tokens.{
  VarType, TokenType, basetype_size, basetype_is_signed, token_name, t_ident, t_number, t_star,
  t_ampersand, t_not, t_plusplus, t_minusminus, t_lparen, t_rparen, t_lbracket, t_rbracket,
}
use schwarz_kernel.Compiler.State.{
  Var, Action, pure, modify, ◌>>=◌, ◌>>◌, if_some, add_error, add_error_tok,
}
use schwarz_kernel.Compiler.Vars.{
  type_int, is_negative, var_find, var_find_ptr, var_get_type, var_mark_initialized,
}
use schwarz_kernel.Compiler.Emitter.{
  emit, emit_i32, emit_bool_normalize_rax, emit_mov_rax_imm64, emit_lea_rax, emit_load_via_rax,
}
use schwarz_kernel.Compiler.Parser.{
  is_type, peek, peek_line, consume, consume_name, is_keyword, expect, make_type, parse_type,
  scalar_type_of, pointer_to_base_of, emit_load_var_to_rax, emit_inc_var, emit_dec_var,
  emit_index_address_from_rax, is_cast_ahead,
}

-- `expr_ok = ok`
unfoldable pub set_expr_ok : Bool → Action (Unit {0})
unfolding modify
set_expr_ok ok = modify λ s. record s { expr_ok = ok }

-- `expr_ok = false; return type_int();`
unfoldable pub fail_expr : Action VarType
unfolding pure
fail_expr = set_expr_ok false >> pure type_int

unfoldable pub fail_with : ℕ → List ℕ → Action VarType
fail_with line msg = add_error line msg >> fail_expr

unfoldable pub fail_with_tok : ℕ → List ℕ → List ℕ → Action VarType
fail_with_tok line msg name = add_error_tok line msg name >> fail_expr

-- The failures that leave 0 in the register.
unfoldable pub fail_with_zero : ℕ → List ℕ → List ℕ → Action VarType
fail_with_zero line msg name = do add_error_tok line msg name; emit_mov_rax_imm64 0; fail_expr

unfoldable pub truncate_code : VarType → Action (Unit {0})
unfolding pure
truncate_code ct =
    if ct.is_ptr
    then pure tt
    else if basetype_size ct.base == 1
    then emit (0x48 ∷ 0x25 ∷ []) >> emit_i32 0xFF
    else if basetype_size ct.base == 2
    then emit (0x48 ∷ 0x25 ∷ []) >> emit_i32 0xFFFF
    else if basetype_size ct.base == 4
    then emit (0x89 ∷ 0xC0 ∷ [])
    else pure tt

unfoldable pub cast : Action VarType → Action VarType
unfolding pure
cast primary' = do consume; ct ← parse_type; consume; primary'; truncate_code ct; pure ct

unfoldable pub logical_not : Action VarType → Action VarType
unfolding pure
logical_not primary' = do
  consume
  primary'
  emit_bool_normalize_rax
  emit (0x48 ∷ 0x83 ∷ 0xF0 ∷ 0x01 ∷ [])
  pure type_int

unfoldable pub step_found : Bool → ℕ → List ℕ → Var → Action VarType
unfolding pure
step_found up line name v =
    if ltb 0 v.elem_count
    then fail_with_tok line
        (if up
          then codes "Nie mozna inkrementowac tablicy: "
          else codes "Nie mozna dekrementowac tablicy: ")
        name
    else do
      if up then emit_inc_var v.offset v.vtype else emit_dec_var v.offset v.vtype
      emit_load_var_to_rax v.offset v.vtype
      var_mark_initialized name
      pure (scalar_type_of v.vtype)

unfoldable pub step_named : Bool → ℕ → Action VarType
step_named up line = do
  name ← consume_name
  v ← var_find_ptr name
  if_some v (fail_with_tok line (codes "Niezadeklarowana zmienna: ") name) (step_found up line name)

-- `++ident`, and `--ident` where `up` is false
unfoldable pub pre_step : Bool → Action VarType
pre_step up = do
  line ← peek_line
  consume
  t ← peek
  if is_type t_ident t
      then step_named up line
      else fail_with line (
          if up
          then codes "Oczekiwano nazwy zmiennej po '++'"
          else codes "Oczekiwano nazwy zmiennej po '--'")

unfoldable pub number : Action VarType
unfolding pure
number = do t ← consume; emit_mov_rax_imm64 t.value; pure type_int

unfoldable pub element : Action VarType → ℕ → List ℕ → Var → Action VarType
unfolding pure
element expr' line name v =
    if not v.vtype.is_ptr && v.elem_count == 0
    then fail_with_zero line (codes "Indeksowanie nie-tablicy i nie-wskaznika: ") name
    else do
      if ltb 0 v.elem_count then emit_lea_rax v.offset else emit_load_var_to_rax v.offset v.vtype
      consume
      emit_index_address_from_rax expr' (pointer_to_base_of v.vtype)
      expect t_rbracket
      emit_load_via_rax (basetype_size v.vtype.base) (basetype_is_signed v.vtype.base)
      pure (make_type v.vtype.base false 0)

unfoldable pub post_step : Var → Action VarType
unfolding pure
post_step v = do
  emit_load_var_to_rax v.offset v.vtype
  t ← peek
  if is_type t_plusplus t
      then consume >> emit_inc_var v.offset v.vtype
      else if is_type t_minusminus t
      then consume >> emit_dec_var v.offset v.vtype
      else pure tt
  pure (scalar_type_of v.vtype)

unfoldable pub whole_array : Var → Action VarType
unfolding pure
whole_array v = emit_lea_rax v.offset >> pure (pointer_to_base_of v.vtype)

unfoldable pub use_variable : Action VarType → ℕ → List ℕ → Var → Action VarType
use_variable expr' line name v =
    if not v.initialized && v.elem_count == 0
    then fail_with_zero line (codes "Zmienna uzyta przed inicjalizacja: ") name
    else do
      t ← peek
      if is_type t_lbracket t
          then element expr' line name v
          else if ltb 0 v.elem_count
          then whole_array v
          else post_step v

unfoldable pub identifier : Action VarType → Action VarType
identifier expr' = do
  line ← peek_line
  name ← consume_name
  v ← var_find_ptr name
  if_some v (fail_with_zero line (codes "Niezadeklarowana zmienna: ") name)
      (use_variable expr' line name)

unfoldable pub dereference : Action VarType → Action VarType
unfolding pure
dereference primary' = do
  line ← peek_line
  consume
  pt ← primary'
  if pt.is_ptr
      then emit_load_via_rax (basetype_size pt.base) (basetype_is_signed pt.base)
        >> pure (make_type pt.base false 0)
      else fail_with line (codes "Dereferencja nie-wskaznika")

unfoldable pub address_named : ℕ → Action VarType
unfolding pure
address_named line = do
  name ← consume_name
  off ← var_find name
  if is_negative off
      then fail_with_tok line (codes "Niezadeklarowana zmienna przy &: ") name
      else do emit_lea_rax off; vt ← var_get_type name; pure (make_type vt.base true 0)

unfoldable pub address_of : Action VarType
address_of = do
  line ← peek_line
  consume
  t ← peek
  if is_type t_ident t
      then address_named line
      else fail_with line (codes "Po '&' oczekiwano nazwy zmiennej")

unfoldable pub parenthesis : Action VarType → Action VarType
unfolding pure
parenthesis expr' = do consume; t ← expr'; expect t_rparen; pure t

-- A token that begins no expression. It is consumed at the end of the file too.
unfoldable pub unexpected : TokenType → Action VarType
unexpected t = do
  line ← peek_line
  add_error_tok line
      (if is_keyword t
        then codes "Slowo kluczowe w miejscu wyrazenia: "
        else codes "Nieoczekiwany token w wyrazeniu: ")
      (token_name t)
  consume
  fail_expr

unfoldable pub primary_branch : Action VarType → Action VarType → TokenType → Bool → Action VarType
primary_branch primary' expr' t is_cast =
    if is_cast
    then cast primary'
    else if is_type t_not t
    then logical_not primary'
    else if is_type t_plusplus t
    then pre_step true
    else if is_type t_minusminus t
    then pre_step false
    else if is_type t_number t
    then number
    else if is_type t_ident t
    then identifier expr'
    else if is_type t_star t
    then dereference primary'
    else if is_type t_ampersand t
    then address_of
    else if is_type t_lparen t
    then parenthesis expr'
    else unexpected t

-- The calls of `primary` and of `expr` are arguments.
unfoldable pub primary_with : Action VarType → Action VarType → Action VarType
primary_with primary' expr' = do
  t ← peek
  is_cast ← is_cast_ahead
  primary_branch primary' expr' t is_cast
