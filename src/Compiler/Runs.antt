-- ===== src/Compiler/Runs.antt =====
-- Runs of the parser and emitter.
use schwarz_kernel.Prelude.{
  ◌⊎◌, Option, none, some, ap, ◌^◌, ◌-◌, ◌%◌, ℕ, ◌+◌, ◌≤◌, ◌<◌, ◌≡◌, ◌≢◌, refl, true, false, List,
  [], ◌∷◌, get_or, get_elem?, copy_cstr, codes, map, arith,
}
use schwarz_kernel.Compiler.Tokens.{
  TokenType, bt_int, t_int, t_ident, t_lbracket, t_number, t_rbracket, t_semicolon, t_assign,
  t_return, t_eof,
}
use schwarz_kernel.Compiler.Lexer.{Token, no_token}
use schwarz_kernel.Compiler.State.{
  Var, Parser, Place, token_place, Ending, finished, out_of_time, out_of_bounds,
}
use schwarz_kernel.Compiler.State.{
  pure, out_of_fuel, gets, look_at, modify, and_then, ◌>>=◌, if_some, add_error, add_error_tok,
}
use schwarz_kernel.Compiler.Errors.{my_strcat}
use schwarz_kernel.Compiler.Tokens.{
  basetype_size, basetype_is_signed, pointee_size, token_name, is_type_token, token_to_basetype,
}
use schwarz_kernel.Compiler.Vars.{
  type_int, find_var, var_find_ptr, offset_of, var_find, type_of, var_get_type, initialized_of,
  var_is_initialized, align_up_8, vartype_storage_size, new_var, var_alloc, mark_var,
  var_mark_initialized,
}
use schwarz_kernel.Compiler.Emitter.{
  emit_byte, emit, i32_bytes, emit_i32, emit_i64, emit_push_rbp, emit_mov_rbp_rsp, emit_mov_rsp_rbp,
  emit_pop_rbp, emit_ret, emit_sub_rsp, emit_mov_rax_imm64, emit_store_rax_sized,
  emit_load_rax_sized, emit_lea_rax, emit_push_rax, emit_pop_rcx, emit_store_rcx_via_rax,
  emit_load_via_rax, emit_add_rax_rcx, emit_sub_rcx_rax, emit_imul_rax_rcx, emit_div_prepare,
  emit_mod_to_rax, emit_imul_rax_imm, emit_cmp_rcx_rax, emit_setcc_to_rax, emit_bool_normalize_rax,
  emit_and_rax_rcx, emit_or_rax_rcx, emit_inc_mem_sized, emit_dec_mem_sized, emit_hole, emit_jmp,
  emit_jz, emit_jnz, emit_jmp_back, write_i32, patch_i32, patch_jmp,
}
use schwarz_kernel.Compiler.Parser.{
  is_type, type_number, peek, peek_next, peek_line, consume, peek_name, consume_name, is_keyword,
  expect_message, expect, make_type, parse_type, array_size, no_array_size, bracketed_size,
  parse_array_suffix, scalar_type_of, pointer_to_base_of, vartype_value_size, emit_store_rax_var,
  emit_load_var_to_rax, emit_inc_var, emit_dec_var, emit_index_address_from_rax, is_cast_closed,
  is_cast_ahead, compound_code, emit_compound_assign,
}
use schwarz_kernel.Compiler.Primary.{
  set_expr_ok, fail_expr, fail_with, fail_with_tok, fail_with_zero, truncate_code, cast,
  logical_not, step_found, step_named, pre_step, number, element, post_step, whole_array,
  use_variable, identifier, dereference, address_named, address_of, parenthesis, unexpected,
  primary_branch, primary_with,
}
use schwarz_kernel.Compiler.Expr.{
  peek_value, negate, unary, divide_by_zero, factor_code, factor, factor_or_fail, is_factor,
  term_loop, term, plus_or_minus, add_offset, offset_pointer, pointer_distance, sum_code, addend,
  addexpr_loop, addexpr, relation_code, relexpr, eqexpr, conjunct, andexpr_loop, andexpr, disjunct,
  orexpr_loop, orexpr, expr_with, primary, expr,
}
use schwarz_kernel.Compiler.Clauses.{
  block_loop, braces, block, is_compound, with_scalar, assign, update, initialize, for_variable,
  for_declaration, for_assignment, for_init, step_code, step_scalar, post_assign, for_post_named,
  for_post_step, for_post,
}
use schwarz_kernel.Compiler.Statement.{
  skip_loop, skip_statement, end_statement, declared, declare_name, declaration, store_code,
  store_found, store_through, store_element, element_found, assign_element, assign_variable,
  update_initialized, update_variable, step_variable, postfix_statement, named_statement,
  prefix_statement, assign_literal,
}
use schwarz_kernel.Compiler.Control.{
  code_position, set_return_seen, leave_code, return_statement, empty_condition, while_statement,
  jump_if, do_statement, for_body, for_statement, if_without_condition, if_with_condition,
  if_statement, stray_else, stray_token, statement_branch, peek_after, statement_with, statement,
}
use schwarz_kernel.Compiler.Program.{
  vars_reset, errors_reset, reset, statements, frame_size, patch_frame, compile_body,
  parse_and_compile,
}
use schwarz_kernel.Compiler.Layout.{Laid}
use schwarz_kernel.Compiler.Advances.{passed-ne_eof}
use schwarz_kernel.Compiler.Good.{IsOutside}
use schwarz_kernel.Compiler.Compiled.{
  read_i32, Ends, IsCompiled, HasAppended, compile-ends, statement-appends, statement-progress,
}
use schwarz_kernel.Compiler.Jumps.{patch_jmp-target}
use schwarz_kernel.Compiler.Frames.{total_extent, compile-apart}

abbrev token : TokenType → ℕ → List ℕ → Token
token t value ident = record { type = t; value = value; ident = ident; line = 1 }

-- int a[3]; int x = 5; return x;
abbrev program : List Token
program =
    token t_int 0 []
    ∷ token t_ident 0 (codes "a")
    ∷ token t_lbracket 0 []
    ∷ token t_number 3 []
    ∷ token t_rbracket 0 []
    ∷ token t_semicolon 0 []
    ∷ token t_int 0 []
    ∷ token t_ident 0 (codes "x")
    ∷ token t_assign 0 []
    ∷ token t_number 5 []
    ∷ token t_semicolon 0 []
    ∷ token t_return 0 []
    ∷ token t_ident 0 (codes "x")
    ∷ token t_semicolon 0 []
    ∷ token t_eof 0 []
    ∷ []

-- As `lex` leaves them: one end mark, and zero memory behind it.
abbrev program_tokens : ℕ → Token
program_tokens i = get_or program i no_token

abbrev fresh : Parser
fresh = record {
  tokens = program_tokens;
  curr = 0;
  expr_ok = false;
  explicit_return_seen = false;
  errors = [];
  vars = [];
  stack_size = 0;
  code_buffer = λ i. 0;
  code_idx = 0;
}

abbrev state_after : Ending (Unit {0}) → Parser
state_after (finished _ s) = s
state_after out_of_time = fresh
state_after (out_of_bounds _ s) = s

abbrev compiled : Parser
compiled = state_after (parse_and_compile 1025 fresh)

abbrev var_a : Var
var_a = record {
  name = codes "a";
  offset = 16;
  vtype = record { base = bt_int; is_ptr = false; array_len = 3 };
  initialized = true;
  elem_count = 3;
}

abbrev var_x : Var
var_x = record {
  name = codes "x";
  offset = 24;
  vtype = record { base = bt_int; is_ptr = false; array_len = 0 };
  initialized = true;
  elem_count = 0;
}

compiled_run :
    (parse_and_compile 1025 fresh ≡ finished tt compiled)
    × (compiled.vars ≡ var_a ∷ var_x ∷ [])
    × (map compiled.code_buffer (7 ∷ 8 ∷ 9 ∷ 10 ∷ 11 ∷ 12 ∷ 13 ∷ 14 ∷ 15 ∷ 16 ∷ 17 ∷ 18 ∷ [])
        ≡ 32 ∷ 0 ∷ 0 ∷ 0 ∷ 0x48 ∷ 0xC7 ∷ 0xC0 ∷ 5 ∷ 0 ∷ 0 ∷ 0 ∷ 0x89 ∷ [])
unfolding pure out_of_fuel gets look_at modify and_then ◌>>=◌ if_some add_error add_error_tok
    my_strcat basetype_size basetype_is_signed pointee_size token_name is_type_token
    token_to_basetype type_int find_var var_find_ptr offset_of var_find type_of var_get_type
    initialized_of var_is_initialized align_up_8 vartype_storage_size new_var var_alloc mark_var
    var_mark_initialized emit_byte emit i32_bytes emit_i32 emit_i64 emit_push_rbp emit_mov_rbp_rsp
    emit_mov_rsp_rbp emit_pop_rbp emit_ret emit_sub_rsp emit_mov_rax_imm64 emit_store_rax_sized
    emit_load_rax_sized emit_lea_rax emit_push_rax emit_pop_rcx emit_store_rcx_via_rax
    emit_load_via_rax emit_add_rax_rcx emit_sub_rcx_rax emit_imul_rax_rcx emit_div_prepare
    emit_mod_to_rax emit_imul_rax_imm emit_cmp_rcx_rax emit_setcc_to_rax emit_bool_normalize_rax
    emit_and_rax_rcx emit_or_rax_rcx emit_inc_mem_sized emit_dec_mem_sized emit_hole emit_jmp
    emit_jz emit_jnz emit_jmp_back write_i32 patch_i32 patch_jmp type_number peek peek_next
    peek_line consume peek_name consume_name is_keyword expect_message expect make_type parse_type
    array_size no_array_size bracketed_size parse_array_suffix scalar_type_of pointer_to_base_of
    vartype_value_size emit_store_rax_var emit_load_var_to_rax emit_inc_var emit_dec_var
    emit_index_address_from_rax is_cast_closed is_cast_ahead compound_code emit_compound_assign
    set_expr_ok fail_expr fail_with fail_with_tok fail_with_zero truncate_code cast logical_not
    step_found step_named pre_step number element post_step whole_array use_variable identifier
    dereference address_named address_of parenthesis unexpected primary_branch primary_with
    peek_value negate unary divide_by_zero factor_code factor factor_or_fail is_factor term_loop
    term plus_or_minus add_offset offset_pointer pointer_distance sum_code addend addexpr_loop
    addexpr relation_code relexpr eqexpr conjunct andexpr_loop andexpr disjunct orexpr_loop orexpr
    expr_with primary expr block_loop braces block is_compound with_scalar assign update initialize
    for_variable for_declaration for_assignment for_init step_code step_scalar post_assign
    for_post_named for_post_step for_post skip_loop skip_statement end_statement declared
    declare_name declaration store_code store_found store_through store_element element_found
    assign_element assign_variable update_initialized update_variable step_variable
    postfix_statement named_statement prefix_statement assign_literal code_position set_return_seen
    leave_code return_statement empty_condition while_statement jump_if do_statement for_body
    for_statement if_without_condition if_with_condition if_statement stray_else stray_token
    statement_branch peek_after statement_with statement vars_reset errors_reset reset statements
    frame_size patch_frame compile_body parse_and_compile copy_cstr
compiled_run = (refl, refl, refl)

-- int x =
abbrev unfinished : Parser
unfinished = record fresh {
  tokens = λ i.
      get_or
        (token t_int 0 []
          ∷ token t_ident 0 (codes "x")
          ∷ token t_assign 0 []
          ∷ token t_eof 0 []
          ∷ [])
        i no_token;
}

abbrev place_of : Ending (Unit {0}) → Option Place
place_of (finished _ s) = none
place_of out_of_time = none
place_of (out_of_bounds p s) = some p

-- The parser passes the end mark and reads behind the tokens.
unfinished_run : place_of (parse_and_compile 1025 unfinished) ≡ some (token_place 1024)
unfolding pure out_of_fuel gets look_at modify and_then ◌>>=◌ if_some add_error add_error_tok
    my_strcat basetype_size basetype_is_signed pointee_size token_name is_type_token
    token_to_basetype type_int find_var var_find_ptr offset_of var_find type_of var_get_type
    initialized_of var_is_initialized align_up_8 vartype_storage_size new_var var_alloc mark_var
    var_mark_initialized emit_byte emit i32_bytes emit_i32 emit_i64 emit_push_rbp emit_mov_rbp_rsp
    emit_mov_rsp_rbp emit_pop_rbp emit_ret emit_sub_rsp emit_mov_rax_imm64 emit_store_rax_sized
    emit_load_rax_sized emit_lea_rax emit_push_rax emit_pop_rcx emit_store_rcx_via_rax
    emit_load_via_rax emit_add_rax_rcx emit_sub_rcx_rax emit_imul_rax_rcx emit_div_prepare
    emit_mod_to_rax emit_imul_rax_imm emit_cmp_rcx_rax emit_setcc_to_rax emit_bool_normalize_rax
    emit_and_rax_rcx emit_or_rax_rcx emit_inc_mem_sized emit_dec_mem_sized emit_hole emit_jmp
    emit_jz emit_jnz emit_jmp_back write_i32 patch_i32 patch_jmp type_number peek peek_next
    peek_line consume peek_name consume_name is_keyword expect_message expect make_type parse_type
    array_size no_array_size bracketed_size parse_array_suffix scalar_type_of pointer_to_base_of
    vartype_value_size emit_store_rax_var emit_load_var_to_rax emit_inc_var emit_dec_var
    emit_index_address_from_rax is_cast_closed is_cast_ahead compound_code emit_compound_assign
    set_expr_ok fail_expr fail_with fail_with_tok fail_with_zero truncate_code cast logical_not
    step_found step_named pre_step number element post_step whole_array use_variable identifier
    dereference address_named address_of parenthesis unexpected primary_branch primary_with
    peek_value negate unary divide_by_zero factor_code factor factor_or_fail is_factor term_loop
    term plus_or_minus add_offset offset_pointer pointer_distance sum_code addend addexpr_loop
    addexpr relation_code relexpr eqexpr conjunct andexpr_loop andexpr disjunct orexpr_loop orexpr
    expr_with primary expr block_loop braces block is_compound with_scalar assign update initialize
    for_variable for_declaration for_assignment for_init step_code step_scalar post_assign
    for_post_named for_post_step for_post skip_loop skip_statement end_statement declared
    declare_name declaration store_code store_found store_through store_element element_found
    assign_element assign_variable update_initialized update_variable step_variable
    postfix_statement named_statement prefix_statement assign_literal code_position set_return_seen
    leave_code return_statement empty_condition while_statement jump_if do_statement for_body
    for_statement if_without_condition if_with_condition if_statement stray_else stray_token
    statement_branch peek_after statement_with statement vars_reset errors_reset reset statements
    frame_size patch_frame compile_body parse_and_compile copy_cstr
unfinished_run = refl

small_program : total_extent compiled.vars < 2 ^ 31 - 1024
unfolding basetype_size vartype_value_size
small_program = omega (arith, ap total_extent compiled_run.1)

compile-ends_example : Ends (parse_and_compile 1025 fresh) (IsCompiled fresh)
compile-ends_example = compile-ends 1025 fresh (omega arith)

compile-apart_example : 16 + 4 ≤ 24
unfolding basetype_size vartype_value_size
compile-apart_example =
    compile-apart 1025 fresh compiled 0 1 var_a var_x (omega arith) compiled_run.0 small_program
      (omega arith) (ap (λ vs. get_elem? vs 0) compiled_run.1)
      (ap (λ vs. get_elem? vs 1) compiled_run.1)

-- In the middle of a buffer, with code before it.
abbrev later : Parser
later = record fresh { curr = 11; code_buffer = λ i. i % 256; code_idx = 200 }

later-Laid : Laid 0 later.vars later.stack_size
unfolding Laid
later-Laid = refl

statement-appends_example : Ends (statement 1025 later) (HasAppended later)
statement-appends_example =
    statement-appends 1025 later (omega arith) (omega arith) (omega arith) later-Laid (omega arith)

return-ne_eof : t_return ≢ t_eof
unfolding type_number
return-ne_eof = passed-ne_eof (is_type t_return) t_return refl refl

statement-progress_example :
    ((s' : Parser) × (statement 1025 later ≡ finished tt s') × (11 < s'.curr))
    ⊎ ((p : Place) × (s' : Parser) × (statement 1025 later ≡ out_of_bounds p s') × IsOutside s' p)
statement-progress_example =
    statement-progress 1024 later (omega arith) (omega arith) (omega arith) later-Laid (omega arith)
      return-ne_eof

patch_jmp-target_example :
    (s' : Parser) × (patch_jmp 100 later ≡ finished tt s')
    × ((100 + 4 + read_i32 100 s'.code_buffer) % 2 ^ 32 ≡ 200)
    × ((i : ℕ) → i < 100 → s'.code_buffer i ≡ i % 256)
    × ((i : ℕ) → 104 ≤ i → s'.code_buffer i ≡ i % 256)
patch_jmp-target_example = patch_jmp-target 100 later (omega arith) (omega arith)
