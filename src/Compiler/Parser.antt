-- ===== src/Compiler/Parser.antt =====
-- compiler.cpp: the parser's tools: looking at tokens, taking them, types, and code for a variable.
use schwarz_kernel.Prelude.{
  ℕ, ◌+◌, ◌-◌, ◌^◌, ◌%◌, Bool, true, false, ◌||◌, List, [], ◌∷◌, ◌++◌, ◌==◌, ltb, if◌then◌else◌,
  codes, copy_cstr,
}
use schwarz_kernel.Compiler.Errors.{my_strcat}
use schwarz_kernel.Compiler.Tokens.{
  BaseType, VarType, basetype_size, basetype_is_signed, TokenType, token_name, is_type_token,
  token_to_basetype, t_char, t_int, t_int8, t_int16, t_int32, t_int64, t_uint8, t_uint16, t_uint32,
  t_uint64, t_uintptr, t_intptr, t_return, t_if, t_else, t_while, t_do, t_for, t_ident, t_number,
  t_assign, t_pluseq, t_minuseq, t_stareq, t_slasheq, t_percenteq, t_eq, t_neq, t_lt, t_gt, t_leq,
  t_geq, t_plus, t_minus, t_star, t_slash, t_percent, t_ampersand, t_and, t_pipe, t_or, t_not,
  t_plusplus, t_minusminus, t_semicolon, t_lparen, t_rparen, t_lbracket, t_rbracket, t_lbrace,
  t_rbrace, t_eof, t_unknown,
}
use schwarz_kernel.Compiler.Lexer.{Token}
use schwarz_kernel.Compiler.State.{
  Action, finished, out_of_bounds, token_place, pure, look_at, ◌>>=◌, ◌>>◌, add_error,
}
use schwarz_kernel.Compiler.Vars.{is_negative, var_get_type}
use schwarz_kernel.Compiler.Emitter.{
  emit, emit_push_rax, emit_pop_rcx, emit_imul_rax_imm, emit_imul_rax_rcx, emit_add_rax_rcx,
  emit_mod_to_rax, emit_store_rax_sized, emit_load_rax_sized, emit_inc_mem_sized,
  emit_dec_mem_sized,
}

-- The enumerator's number.
unfoldable pub type_number : TokenType → ℕ
type_number t_char = 0
type_number t_int = 1
type_number t_int8 = 2
type_number t_int16 = 3
type_number t_int32 = 4
type_number t_int64 = 5
type_number t_uint8 = 6
type_number t_uint16 = 7
type_number t_uint32 = 8
type_number t_uint64 = 9
type_number t_uintptr = 10
type_number t_intptr = 11
type_number t_return = 12
type_number t_if = 13
type_number t_else = 14
type_number t_while = 15
type_number t_do = 16
type_number t_for = 17
type_number t_ident = 18
type_number t_number = 19
type_number t_assign = 20
type_number t_pluseq = 21
type_number t_minuseq = 22
type_number t_stareq = 23
type_number t_slasheq = 24
type_number t_percenteq = 25
type_number t_eq = 26
type_number t_neq = 27
type_number t_lt = 28
type_number t_gt = 29
type_number t_leq = 30
type_number t_geq = 31
type_number t_plus = 32
type_number t_minus = 33
type_number t_star = 34
type_number t_slash = 35
type_number t_percent = 36
type_number t_ampersand = 37
type_number t_and = 38
type_number t_pipe = 39
type_number t_or = 40
type_number t_not = 41
type_number t_plusplus = 42
type_number t_minusminus = 43
type_number t_semicolon = 44
type_number t_lparen = 45
type_number t_rparen = 46
type_number t_lbracket = 47
type_number t_rbracket = 48
type_number t_lbrace = 49
type_number t_rbrace = 50
type_number t_eof = 51
type_number t_unknown = 52

abbrev pub is_type : TokenType → TokenType → Bool
is_type t u = type_number u == type_number t

unfoldable pub peek : Action TokenType
unfolding look_at
peek = look_at (λ s. s.curr) (λ t. t.type)

-- `token_stream[curr + 1].type`
unfoldable pub peek_next : Action TokenType
unfolding look_at
peek_next = look_at (λ s. s.curr + 1) (λ t. t.type)

unfoldable pub peek_line : Action ℕ
unfolding look_at
peek_line = look_at (λ s. s.curr) (λ t. t.line)

-- Nothing stops it at T_EOF.
unfoldable pub consume : Action Token
consume s =
    if ltb s.curr 1024
    then finished (s.tokens s.curr) (record s { curr = s.curr + 1 })
    else out_of_bounds (token_place s.curr) s

-- `my_strcpy(name, token_stream[curr].ident, 32)`
unfoldable pub peek_name : Action (List ℕ)
unfolding look_at
peek_name = look_at (λ s. s.curr) (λ t. copy_cstr t.ident 32)

unfoldable pub consume_name : Action (List ℕ)
unfolding pure
consume_name = do t ← consume; pure (copy_cstr t.ident 32)

unfoldable pub is_keyword : TokenType → Bool
is_keyword t =
    is_type t_return t
    || is_type t_if t
    || is_type t_else t
    || is_type t_while t
    || is_type t_do t
    || is_type t_for t
    || is_type_token t

unfoldable pub expect_message : TokenType → TokenType → List ℕ
expect_message t found =
    my_strcat
      (my_strcat (my_strcat (codes "Oczekiwano ") (token_name t) 128) (codes ", znaleziono: ") 128)
      (token_name found) 128

unfoldable pub expect : TokenType → Action Bool
unfolding pure
expect t = do
  found ← peek
  if is_type t found
      then consume >> pure true
      else do line ← peek_line; add_error line (expect_message t found); pure false

unfoldable pub make_type : BaseType → Bool → ℕ → VarType
make_type b ptr array_len = record { base = b; is_ptr = ptr; array_len = array_len }

unfoldable pub parse_type : Action VarType
unfolding pure
parse_type = do
  t ← consume
  star ← peek
  if is_type t_star star
      then consume >> pure (make_type (token_to_basetype t.type) true 0)
      else pure (make_type (token_to_basetype t.type) false 0)

-- A literal size, an int by its bits.
unfoldable pub array_size : Action ℕ
unfolding pure
array_size = do
  size ← consume
  line ← peek_line
  if size.value % 2 ^ 32 == 0 || is_negative (size.value % 2 ^ 32)
      then add_error line (codes "Rozmiar tablicy musi byc dodatni")
      else pure tt
  expect t_rbracket
  pure (size.value % 2 ^ 32)

unfoldable pub no_array_size : Action ℕ
unfolding pure
no_array_size = do
  line ← peek_line
  add_error line
      (codes "Rozmiar tablicy musi byc stalym litera" ++ 0xC5 ∷ 0x82 ∷ codes "em liczbowym")
  expect t_rbracket
  pure (2 ^ 32 - 1)

-- -1 for a size that is no number.
unfoldable pub bracketed_size : Action ℕ
bracketed_size = do
  consume
  number ← peek
  if is_type t_number number then array_size else no_array_size

-- 0 without a suffix.
unfoldable pub parse_array_suffix : Action ℕ
unfolding pure
parse_array_suffix = do
  bracket ← peek
  if is_type t_lbracket bracket then bracketed_size else pure 0

unfoldable pub scalar_type_of : VarType → VarType
scalar_type_of vt = make_type vt.base vt.is_ptr 0

unfoldable pub pointer_to_base_of : VarType → VarType
pointer_to_base_of vt = make_type vt.base true 0

unfoldable pub vartype_value_size : VarType → ℕ
vartype_value_size vt = if vt.is_ptr then 8 else basetype_size vt.base

unfoldable pub emit_store_rax_var : ℕ → VarType → Action (Unit {0})
emit_store_rax_var off vt = emit_store_rax_sized off (vartype_value_size vt)

unfoldable pub emit_load_var_to_rax : ℕ → VarType → Action (Unit {0})
emit_load_var_to_rax off vt =
    emit_load_rax_sized off (vartype_value_size vt) (basetype_is_signed vt.base)

unfoldable pub emit_inc_var : ℕ → VarType → Action (Unit {0})
emit_inc_var off vt = emit_inc_mem_sized off (vartype_value_size vt)

unfoldable pub emit_dec_var : ℕ → VarType → Action (Unit {0})
emit_dec_var off vt = emit_dec_mem_sized off (vartype_value_size vt)

-- `expr'` is the source's `expr`.
unfoldable pub emit_index_address_from_rax : Action VarType → VarType → Action (Unit {0})
unfolding pure
emit_index_address_from_rax expr' base_type = do
  emit_push_rax
  expr'
  if ltb 1 (basetype_size base_type.base)
      then emit_imul_rax_imm (basetype_size base_type.base)
      else pure tt
  emit_pop_rcx
  emit_add_rax_rcx

-- What follows the parenthesis and the type.
unfoldable pub is_cast_closed : Action Bool
unfolding look_at pure
is_cast_closed = do
  star ← look_at (λ s. s.curr + 2) (λ t. t.type)
  last ← if is_type t_star star then look_at (λ s. s.curr + 3) (λ t. t.type) else pure star
  pure (is_type t_rparen last)

-- The source moves `curr` ahead and back.
unfoldable pub is_cast_ahead : Action Bool
unfolding pure
is_cast_ahead = do
  paren ← peek
  if is_type t_lparen paren
      then (do word ← peek_next; if is_type_token word then is_cast_closed else pure false)
      else pure false

unfoldable pub compound_code : TokenType → Action (Unit {0})
unfolding pure
compound_code t_pluseq = emit_add_rax_rcx
compound_code t_minuseq = emit (0x48 ∷ 0x29 ∷ 0xC8 ∷ [])
compound_code t_stareq = emit_imul_rax_rcx
compound_code t_slasheq = emit (0x48 ∷ 0x99 ∷ 0x48 ∷ 0xF7 ∷ 0xF9 ∷ [])
compound_code t_percenteq = emit (0x48 ∷ 0x99 ∷ 0x48 ∷ 0xF7 ∷ 0xF9 ∷ []) >> emit_mod_to_rax
compound_code _ = pure tt

unfoldable pub emit_compound_assign : List ℕ → TokenType → ℕ → Action (Unit {0})
emit_compound_assign name op off = do
  vt ← var_get_type name
  emit_push_rax
  emit_load_var_to_rax off (scalar_type_of vt)
  emit_pop_rcx
  compound_code op
  emit_store_rax_var off (scalar_type_of vt)
