-- ===== src/Compiler/Expr.antt =====
-- compiler.cpp: expressions, from unary minus up. Each loop and each nested expression takes from the fuel.
use schwarz_kernel.Prelude.{
  ℕ, zero, suc, Bool, true, false, not, ◌&&◌, ◌||◌, [], ◌∷◌, ◌++◌, ◌==◌, ltb, if◌then◌else◌, codes,
}
use schwarz_kernel.Compiler.Tokens.{
  VarType, TokenType, pointee_size, t_number, t_assign, t_eq, t_neq, t_lt, t_gt, t_leq, t_geq,
  t_plus, t_minus, t_star, t_slash, t_percent, t_and, t_or,
}
use schwarz_kernel.Compiler.State.{Action, pure, out_of_fuel, look_at, ◌>>=◌, ◌>>◌, add_error}
use schwarz_kernel.Compiler.Vars.{type_int}
use schwarz_kernel.Compiler.Emitter.{
  emit, emit_i32, emit_push_rax, emit_pop_rcx, emit_add_rax_rcx, emit_sub_rcx_rax,
  emit_imul_rax_rcx, emit_imul_rax_imm, emit_div_prepare, emit_mod_to_rax, emit_cmp_rcx_rax,
  emit_setcc_to_rax, emit_bool_normalize_rax, emit_and_rax_rcx, emit_or_rax_rcx, emit_jz, emit_jnz,
  patch_jmp,
}
use schwarz_kernel.Compiler.Parser.{is_type, peek, peek_line, consume}
use schwarz_kernel.Compiler.Primary.{set_expr_ok, primary_with}

-- `token_stream[curr].value`
unfoldable pub peek_value : Action ℕ
unfolding look_at
peek_value = look_at (λ s. s.curr) (λ t. t.value)

unfoldable pub negate : Action VarType → Action VarType
unfolding pure
negate primary' = do consume; primary'; emit (0x48 ∷ 0xF7 ∷ 0xD8 ∷ []); pure type_int

unfoldable pub unary : Action VarType → Action VarType
unary primary' = do t ← peek; if is_type t_minus t then negate primary' else primary'

unfoldable pub divide_by_zero : ℕ → VarType → Action VarType
unfolding pure
divide_by_zero line t = do
  add_error line (codes "Dzielenie przez zero")
  consume
  set_expr_ok false
  pure t

unfoldable pub factor_code : TokenType → Action (Unit {0})
unfolding pure
factor_code op =
    if is_type t_star op
    then emit_imul_rax_rcx
    else do emit_div_prepare; if is_type t_percent op then emit_mod_to_rax else pure tt

-- One operator and its right side.
unfoldable pub factor : Action VarType → TokenType → Action (Unit {0})
factor primary' op = do emit_push_rax; unary primary'; emit_pop_rcx; factor_code op

-- The test for a division by the literal 0, before the rest of the loop.
unfoldable pub factor_or_fail : ℕ → TokenType → VarType → Action VarType → Action VarType
factor_or_fail line op t rest = do
  right ← peek
  value ← peek_value
  if (is_type t_slash op || is_type t_percent op) && is_type t_number right && value == 0
      then divide_by_zero line t
      else rest

unfoldable pub is_factor : TokenType → Bool
is_factor t = is_type t_star t || is_type t_slash t || is_type t_percent t

unfoldable pub term_loop : ℕ → Action VarType → VarType → Action VarType
unfolding pure out_of_fuel
term_loop zero primary' t = out_of_fuel
term_loop (suc n) primary' t = do
  next ← peek
  if is_factor next
      then (do
        line ← peek_line
        op ← consume
        factor_or_fail line op.type t (factor primary' op.type >> term_loop n primary' type_int))
      else pure t

unfoldable pub term : ℕ → Action VarType → Action VarType
term n primary' = unary primary' >>= term_loop n primary'

unfoldable pub plus_or_minus : TokenType → Action (Unit {0})
plus_or_minus op = if is_type t_plus op then emit_add_rax_rcx else emit_sub_rcx_rax

-- pointer and integer
unfoldable pub add_offset : TokenType → VarType → Action VarType
unfolding pure
add_offset op t = do
  if ltb 1 (pointee_size t) then emit_imul_rax_imm (pointee_size t) else pure tt
  plus_or_minus op
  pure t

-- integer + pointer
unfoldable pub offset_pointer : VarType → Action VarType
unfolding pure
offset_pointer t2 = do
  emit (0x48 ∷ 0x91 ∷ [])
  if ltb 1 (pointee_size t2)
      then emit (0x48 ∷ 0x69 ∷ 0xC9 ∷ []) >> emit_i32 (pointee_size t2)
      else pure tt
  emit_add_rax_rcx
  pure t2

-- pointer - pointer
unfoldable pub pointer_distance : VarType → Action VarType
unfolding pure
pointer_distance t = do
  emit_sub_rcx_rax
  if ltb 1 (pointee_size t)
      then (do
        emit (0x48 ∷ 0xC7 ∷ 0xC1 ∷ [])
        emit_i32 (pointee_size t)
        emit (0x48 ∷ 0x99 ∷ 0x48 ∷ 0xF7 ∷ 0xF9 ∷ []))
      else pure tt
  pure type_int

unfoldable pub sum_code : TokenType → VarType → VarType → Action VarType
unfolding pure
sum_code op t t2 =
    if t.is_ptr && not t2.is_ptr
    then add_offset op t
    else if not t.is_ptr && t2.is_ptr && is_type t_plus op
    then offset_pointer t2
    else if t.is_ptr && t2.is_ptr && is_type t_minus op
    then pointer_distance t
    else plus_or_minus op >> pure type_int

-- One operator and its right side.
unfoldable pub addend : Action VarType → TokenType → VarType → Action VarType
addend right op t = do emit_push_rax; t2 ← right; emit_pop_rcx; sum_code op t t2

unfoldable pub addexpr_loop : ℕ → ℕ → Action VarType → VarType → Action VarType
unfolding pure out_of_fuel
addexpr_loop zero k primary' t = out_of_fuel
addexpr_loop (suc n) k primary' t = do
  next ← peek
  if is_type t_plus next || is_type t_minus next
      then (do op ← consume; r ← addend (term k primary') op.type t; addexpr_loop n k primary' r)
      else pure t

unfoldable pub addexpr : ℕ → Action VarType → Action VarType
addexpr n primary' = term n primary' >>= addexpr_loop n n primary'

unfoldable pub relation_code : TokenType → Action (Unit {0})
unfolding pure
relation_code t_lt = emit_setcc_to_rax 0x9C
relation_code t_gt = emit_setcc_to_rax 0x9F
relation_code t_leq = emit_setcc_to_rax 0x9E
relation_code t_geq = emit_setcc_to_rax 0x9D
relation_code _ = pure tt

unfoldable pub relexpr : ℕ → Action VarType → Action VarType
unfolding pure
relexpr n primary' = do
  t ← addexpr n primary'
  op ← peek
  if is_type t_lt op || is_type t_gt op || is_type t_leq op || is_type t_geq op
      then (do
        consume
        emit_push_rax
        addexpr n primary'
        emit_pop_rcx
        emit_cmp_rcx_rax
        relation_code op
        pure type_int)
      else pure t

unfoldable pub eqexpr : ℕ → Action VarType → Action VarType
unfolding pure
eqexpr n primary' = do
  t ← relexpr n primary'
  op ← peek
  if is_type t_eq op || is_type t_neq op
      then (do
        consume
        emit_push_rax
        relexpr n primary'
        emit_pop_rcx
        emit_cmp_rcx_rax
        emit_setcc_to_rax (if is_type t_eq op then 0x94 else 0x95)
        pure type_int)
      else pure t

-- The right side of one operator, which is jumped over.
unfoldable pub conjunct : Action VarType → Action (Unit {0})
conjunct right = do
  emit_bool_normalize_rax
  emit_push_rax
  jz ← emit_jz
  right
  emit_bool_normalize_rax
  emit_pop_rcx
  emit_and_rax_rcx
  patch_jmp jz

unfoldable pub andexpr_loop : ℕ → ℕ → Action VarType → VarType → Action VarType
unfolding pure out_of_fuel
andexpr_loop zero k primary' t = out_of_fuel
andexpr_loop (suc n) k primary' t = do
  next ← peek
  if is_type t_and next
      then consume >> (conjunct (eqexpr k primary') >> andexpr_loop n k primary' type_int)
      else pure t

unfoldable pub andexpr : ℕ → Action VarType → Action VarType
andexpr n primary' = eqexpr n primary' >>= andexpr_loop n n primary'

-- The right side of one operator, which is jumped over.
unfoldable pub disjunct : Action VarType → Action (Unit {0})
disjunct right = do
  emit_bool_normalize_rax
  emit_push_rax
  jnz ← emit_jnz
  right
  emit_bool_normalize_rax
  emit_pop_rcx
  emit_or_rax_rcx
  patch_jmp jnz

unfoldable pub orexpr_loop : ℕ → ℕ → Action VarType → VarType → Action VarType
unfolding pure out_of_fuel
orexpr_loop zero k primary' t = out_of_fuel
orexpr_loop (suc n) k primary' t = do
  next ← peek
  if is_type t_or next
      then consume >> (disjunct (andexpr k primary') >> orexpr_loop n k primary' type_int)
      else pure t

unfoldable pub orexpr : ℕ → Action VarType → Action VarType
orexpr n primary' = andexpr n primary' >>= orexpr_loop n n primary'

unfoldable pub expr_with : ℕ → Action VarType → Action VarType
unfolding pure
expr_with n primary' = do
  set_expr_ok true
  t ← orexpr n primary'
  next ← peek
  if is_type t_assign next
      then (do
        line ← peek_line
        add_error line (
            codes "Uzyto '=' zamiast '==' "
            ++ 0xE2 ∷ 0x80 ∷ 0x94 ∷ codes " przypisanie nie jest wyrazeniem")
        consume
        orexpr n primary'
        set_expr_ok false
        pure t)
      else pure t

unfoldable pub primary : ℕ → Action VarType
primary zero s = out_of_fuel s
primary (suc n) s = primary_with (primary n) (expr_with n (primary n)) s

unfoldable pub expr : ℕ → Action VarType
expr n = expr_with n (primary n)
