-- ===== src/Compiler/Statement.antt =====
-- compiler.cpp: the statements. `n` bounds the loops over tokens.
use schwarz_kernel.Prelude.{
  ℕ, zero, suc, Bool, not, ◌&&◌, ◌||◌, List, [], ◌∷◌, ◌==◌, ltb, if◌then◌else◌, codes,
}
use schwarz_kernel.Compiler.Tokens.{
  VarType, TokenType, basetype_size, t_ident, t_assign, t_plusplus, t_minusminus, t_semicolon,
  t_lbracket, t_rbracket, t_eof,
}
use schwarz_kernel.Compiler.State.{
  Var, Action, pure, out_of_fuel, ◌>>=◌, ◌>>◌, if_some, add_error, add_error_tok,
}
use schwarz_kernel.Compiler.Vars.{
  is_negative, var_find, var_find_ptr, var_is_initialized, var_alloc, var_mark_initialized,
}
use schwarz_kernel.Compiler.Emitter.{
  emit, emit_push_rax, emit_pop_rcx, emit_lea_rax, emit_store_rcx_via_rax,
}
use schwarz_kernel.Compiler.Parser.{
  is_type, peek, peek_next, peek_line, peek_name, consume, consume_name, expect, parse_type,
  parse_array_suffix, pointer_to_base_of, emit_store_rax_var, emit_load_var_to_rax,
  emit_index_address_from_rax,
}
use schwarz_kernel.Compiler.Clauses.{is_compound, with_scalar, assign, update, step_code}

unfoldable pub skip_loop : ℕ → Action (Unit {0})
unfolding pure out_of_fuel
skip_loop zero = out_of_fuel
skip_loop (suc n) = do
  t ← peek
  if is_type t_semicolon t || is_type t_eof t then pure tt else consume >> skip_loop n

-- To the end of the statement, the semicolon included.
unfoldable pub skip_statement : ℕ → Action (Unit {0})
unfolding pure
skip_statement n = do
  skip_loop n
  t ← peek
  if is_type t_semicolon t then consume >> pure tt else pure tt

unfoldable pub end_statement : Action (Unit {0})
unfolding pure
end_statement = expect t_semicolon >> pure tt

unfoldable pub declared : ℕ → Action VarType → ℕ → List ℕ → VarType → ℕ → Action (Unit {0})
unfolding pure
declared n expr' line name vt array_len = do
  off ← var_alloc name (record vt { array_len = array_len }) array_len
  if ltb 0 array_len then var_mark_initialized name else pure tt
  t ← peek
  if is_type t_assign t
      then (if ltb 0 array_len
          then (do
            add_error line
                (codes "Inicjalizacja tablicy pojedynczym wyrazeniem nie jest obslugiwana")
            skip_statement n)
          else (do
            consume
            expr'
            emit_store_rax_var off vt
            var_mark_initialized name
            end_statement))
      else end_statement

unfoldable pub declare_name : ℕ → Action VarType → ℕ → VarType → Action (Unit {0})
declare_name n expr' line vt = do
  name_line ← peek_line
  name ← consume_name
  off ← var_find name
  if is_negative off
      then (do
        array_len ← parse_array_suffix
        if is_negative array_len then skip_statement n else declared n expr' line name vt array_len)
      else (do
        add_error_tok name_line (codes "Ponowna deklaracja zmiennej: ") name
        skip_statement n)

unfoldable pub declaration : ℕ → Action VarType → Action (Unit {0})
declaration n expr' = do
  line ← peek_line
  vt ← parse_type
  t ← peek
  if is_type t_ident t
      then declare_name n expr' line vt
      else (do add_error line (codes "Po typie oczekiwano nazwy zmiennej"); skip_statement n)

unfoldable pub store_code : Action VarType → Var → Action (Unit {0})
store_code expr' v = do
  expr'
  emit_push_rax
  emit_load_var_to_rax v.offset v.vtype
  emit_pop_rcx
  emit_store_rcx_via_rax (basetype_size v.vtype.base)
  end_statement

unfoldable pub store_found : ℕ → Action VarType → ℕ → List ℕ → Var → Action (Unit {0})
store_found n expr' line name v =
    if not v.vtype.is_ptr
    then add_error_tok line (codes "Dereferencja nie-wskaznika: ") name >> skip_statement n
    else if not v.initialized
    then add_error_tok line (codes "Zapis przez niezainicjalizowany wskaznik: ") name
      >> skip_statement n
    else store_code expr' v

-- `*ident = expr;`
unfoldable pub store_through : ℕ → Action VarType → Action (Unit {0})
store_through n expr' = do
  line ← peek_line
  consume
  name ← consume_name
  t ← peek
  if is_type t_assign t
      then (do
        consume
        v ← var_find_ptr name
        if_some v
            (add_error_tok line (codes "Niezadeklarowana zmienna przy *: ") name
              >> skip_statement n)
            (store_found n expr' line name))
      else (do add_error line (codes "Oczekiwano '=' po '*ident'"); skip_statement n)

unfoldable pub store_element : Action VarType → Var → Action (Unit {0})
store_element expr' v = do
  consume
  emit_push_rax
  expr'
  emit_pop_rcx
  emit (0x48 ∷ 0x91 ∷ [])
  emit_store_rcx_via_rax (basetype_size v.vtype.base)
  end_statement

unfoldable pub element_found : ℕ → Action VarType → ℕ → List ℕ → Var → Action (Unit {0})
element_found n expr' line name v =
    if not v.vtype.is_ptr && v.elem_count == 0
    then add_error_tok line (codes "Indeksowanie nie-tablicy i nie-wskaznika: ") name
      >> skip_statement n
    else do
      consume
      if ltb 0 v.elem_count then emit_lea_rax v.offset else emit_load_var_to_rax v.offset v.vtype
      consume
      emit_index_address_from_rax expr' (pointer_to_base_of v.vtype)
      expect t_rbracket
      t ← peek
      if is_type t_assign t then store_element expr' v else (do
        add_error line
            (codes "Obecnie wspierane jest tylko przypisanie do elementu tablicy/wskaznika")
        skip_statement n)

unfoldable pub assign_element : ℕ → Action VarType → ℕ → List ℕ → Action (Unit {0})
assign_element n expr' line name = do
  v ← var_find_ptr name
  if_some v (add_error_tok line (codes "Niezadeklarowana zmienna: ") name >> skip_statement n)
      (element_found n expr' line name)

unfoldable pub assign_variable : ℕ → Action VarType → ℕ → List ℕ → Action (Unit {0})
assign_variable n expr' line name = do
  consume
  consume
  with_scalar (skip_statement n) line (codes "Przypisanie do niezadeklarowanej zmiennej: ")
      (codes "Nie mozna przypisac do calej tablicy: ") name
      λ v. assign expr' name v >> end_statement

unfoldable pub update_initialized :
    ℕ → Action VarType → ℕ → List ℕ → TokenType → Var → Action (Unit {0})
update_initialized n expr' line name op v = do
  initialized ← var_is_initialized name
  if initialized then update expr' name op v >> end_statement else (do
    add_error_tok line (codes "Zmienna uzyta przed inicjalizacja: ") name
    skip_statement n)

unfoldable pub update_variable : ℕ → Action VarType → ℕ → List ℕ → Action (Unit {0})
update_variable n expr' line name = do
  consume
  op ← consume
  with_scalar (skip_statement n) line (codes "Niezadeklarowana zmienna: ")
      (codes "Nie mozna modyfikowac calej tablicy: ") name
      (update_initialized n expr' line name op.type)

-- What `++` and `--` statements do with the name.
unfoldable pub step_variable : ℕ → ℕ → Bool → List ℕ → Action (Unit {0})
step_variable n line up name =
    with_scalar (skip_statement n) line (codes "Niezadeklarowana zmienna: ")
      (codes "Nie mozna inkrementowac/dekrementowac calej tablicy: ") name
      λ v. step_code up v >> end_statement

unfoldable pub postfix_statement : ℕ → ℕ → List ℕ → Action (Unit {0})
postfix_statement n line name = do
  consume
  op ← consume
  step_variable n line (is_type t_plusplus op.type) name

unfoldable pub named_statement : ℕ → Action VarType → Action (Unit {0})
named_statement n expr' = do
  name ← peek_name
  line ← peek_line
  next ← peek_next
  if is_type t_lbracket next
      then assign_element n expr' line name
      else if is_type t_assign next
      then assign_variable n expr' line name
      else if is_compound next
      then update_variable n expr' line name
      else if is_type t_plusplus next || is_type t_minusminus next
      then postfix_statement n line name
      else skip_statement n

unfoldable pub prefix_statement : ℕ → Action (Unit {0})
prefix_statement n = do
  line ← peek_line
  op ← consume
  t ← peek
  if is_type t_ident t
      then consume_name >>= step_variable n line (is_type t_plusplus op.type)
      else (do add_error line (codes "Oczekiwano nazwy zmiennej po ++/--"); skip_statement n)

unfoldable pub assign_literal : ℕ → Action (Unit {0})
assign_literal n = do
  line ← peek_line
  add_error line (codes "Nie mozna przypisac wartosci do literalu liczbowego")
  skip_statement n
