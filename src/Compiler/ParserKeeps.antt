-- ===== src/Compiler/ParserKeeps.antt =====
-- compiler.cpp: the parser's tools keep the state of the parser good.
use schwarz_kernel.Prelude.{ℕ, List}
use schwarz_kernel.Compiler.Tokens.{
  VarType, TokenType, t_pluseq, t_minuseq, t_stareq, t_slasheq, t_percenteq,
}
use schwarz_kernel.Compiler.State.{Action}
use schwarz_kernel.Compiler.Vars.{var_find_ptr, var_find, var_get_type, var_is_initialized}
use schwarz_kernel.Compiler.Parser.{
  peek, peek_next, peek_line, peek_name, consume_name, expect, parse_type, is_cast_ahead,
  emit_store_rax_var, emit_load_var_to_rax, emit_inc_var, emit_dec_var, array_size, no_array_size,
  bracketed_size, parse_array_suffix, emit_index_address_from_rax, compound_code,
  emit_compound_assign,
}
use schwarz_kernel.Compiler.Looks.{
  Looks-peek, Looks-peek_next, Looks-peek_line, Looks-peek_name, Looks-is_cast_ahead,
}
use schwarz_kernel.Compiler.Good.{Run}
use schwarz_kernel.Compiler.Keeps.{Keeps, Keeps-gets, Keeps-Looks, Keeps-pure, keeps_rules}
use schwarz_kernel.Compiler.EmitterKeeps.{emitter_rules}

module _ {r : Run} {fuel : ℕ} where
  pub Keeps-var_find_ptr : (a : List ℕ) → Keeps r fuel (var_find_ptr a)
  unfolding var_find_ptr
  Keeps-var_find_ptr a = Keeps-gets _

  pub Keeps-var_find : (a : List ℕ) → Keeps r fuel (var_find a)
  unfolding var_find
  Keeps-var_find a = Keeps-gets _

  pub Keeps-var_get_type : (a : List ℕ) → Keeps r fuel (var_get_type a)
  unfolding var_get_type
  Keeps-var_get_type a = Keeps-gets _

  pub Keeps-var_is_initialized : (a : List ℕ) → Keeps r fuel (var_is_initialized a)
  unfolding var_is_initialized
  Keeps-var_is_initialized a = Keeps-gets _

  pub Keeps-peek : Keeps r fuel peek
  Keeps-peek = Keeps-Looks peek Looks-peek

  pub Keeps-peek_next : Keeps r fuel peek_next
  Keeps-peek_next = Keeps-Looks peek_next Looks-peek_next

  pub Keeps-peek_line : Keeps r fuel peek_line
  Keeps-peek_line = Keeps-Looks peek_line Looks-peek_line

  pub Keeps-peek_name : Keeps r fuel peek_name
  Keeps-peek_name = Keeps-Looks peek_name Looks-peek_name

  ruleset look_rules = (
    keeps_rules, emitter_rules, Keeps-var_find_ptr, Keeps-var_find, Keeps-var_get_type,
    Keeps-var_is_initialized, Keeps-peek, Keeps-peek_next, Keeps-peek_line, Keeps-peek_name,
  )

  pub Keeps-consume_name : Keeps r fuel consume_name
  unfolding consume_name
  Keeps-consume_name = search look_rules depth 30

  pub Keeps-expect : (a : TokenType) → Keeps r fuel (expect a)
  unfolding expect
  Keeps-expect a = search look_rules depth 30

  pub Keeps-parse_type : Keeps r fuel parse_type
  unfolding parse_type
  Keeps-parse_type = search look_rules depth 30

  pub Keeps-is_cast_ahead : Keeps r fuel is_cast_ahead
  Keeps-is_cast_ahead = Keeps-Looks is_cast_ahead Looks-is_cast_ahead

  pub Keeps-emit_store_rax_var : (a : ℕ) (b : VarType) → Keeps r fuel (emit_store_rax_var a b)
  unfolding emit_store_rax_var
  Keeps-emit_store_rax_var a b = search look_rules depth 30

  pub Keeps-emit_load_var_to_rax : (a : ℕ) (b : VarType) → Keeps r fuel (emit_load_var_to_rax a b)
  unfolding emit_load_var_to_rax
  Keeps-emit_load_var_to_rax a b = search look_rules depth 30

  pub Keeps-emit_inc_var : (a : ℕ) (b : VarType) → Keeps r fuel (emit_inc_var a b)
  unfolding emit_inc_var
  Keeps-emit_inc_var a b = search look_rules depth 30

  pub Keeps-emit_dec_var : (a : ℕ) (b : VarType) → Keeps r fuel (emit_dec_var a b)
  unfolding emit_dec_var
  Keeps-emit_dec_var a b = search look_rules depth 30

  ruleset token_rules = (
    look_rules, Keeps-consume_name, Keeps-expect, Keeps-parse_type, Keeps-is_cast_ahead,
    Keeps-emit_store_rax_var, Keeps-emit_load_var_to_rax, Keeps-emit_inc_var, Keeps-emit_dec_var,
  )

  pub Keeps-array_size : Keeps r fuel array_size
  unfolding array_size
  Keeps-array_size = search token_rules depth 30

  pub Keeps-no_array_size : Keeps r fuel no_array_size
  unfolding no_array_size
  Keeps-no_array_size = search token_rules depth 30

  ruleset size_rules = (token_rules, Keeps-array_size, Keeps-no_array_size)

  pub Keeps-bracketed_size : Keeps r fuel bracketed_size
  unfolding bracketed_size
  Keeps-bracketed_size = search size_rules depth 30

  ruleset suffix_rules = (size_rules, Keeps-bracketed_size)

  pub Keeps-parse_array_suffix : Keeps r fuel parse_array_suffix
  unfolding parse_array_suffix
  Keeps-parse_array_suffix = search suffix_rules depth 30

  pub Keeps-emit_index_address_from_rax :
      (a : Action VarType) (b : VarType)
      → Keeps r fuel a
      → Keeps r fuel (emit_index_address_from_rax a b)
  unfolding emit_index_address_from_rax
  Keeps-emit_index_address_from_rax a b ka = search suffix_rules depth 30

  pub Keeps-compound_code : (op : TokenType) → Keeps r fuel (compound_code op)
  unfolding compound_code
  Keeps-compound_code t_pluseq = search emitter_rules
  Keeps-compound_code t_minuseq = search emitter_rules
  Keeps-compound_code t_stareq = search emitter_rules
  Keeps-compound_code t_slasheq = search emitter_rules
  Keeps-compound_code t_percenteq = search (keeps_rules, emitter_rules)
  Keeps-compound_code _ = Keeps-pure tt

  pub Keeps-emit_compound_assign :
      (a : List ℕ) (b : TokenType) (c : ℕ) → Keeps r fuel (emit_compound_assign a b c)
  unfolding emit_compound_assign
  Keeps-emit_compound_assign a b c = search (suffix_rules, Keeps-compound_code) depth 30

pub ruleset parser_rules = (
  keeps_rules, emitter_rules, Keeps-var_find_ptr, Keeps-var_find, Keeps-var_get_type,
  Keeps-var_is_initialized, Keeps-peek, Keeps-peek_next, Keeps-peek_line, Keeps-peek_name,
  Keeps-consume_name, Keeps-expect, Keeps-parse_type, Keeps-is_cast_ahead, Keeps-emit_store_rax_var,
  Keeps-emit_load_var_to_rax, Keeps-emit_inc_var, Keeps-emit_dec_var, Keeps-array_size,
  Keeps-no_array_size, Keeps-bracketed_size, Keeps-parse_array_suffix,
  Keeps-emit_index_address_from_rax, Keeps-emit_compound_assign,
)
