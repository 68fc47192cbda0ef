-- ===== src/Compiler/ExprKeeps.antt =====
-- compiler.cpp: expressions return and keep the state of the parser good.
use schwarz_kernel.Prelude.{ℕ, zero, suc, refl, ◌||◌, arith}
use schwarz_kernel.Compiler.Tokens.{
  VarType, TokenType, t_plus, t_minus, t_and, t_or, t_lt, t_gt, t_leq, t_geq,
}
use schwarz_kernel.Compiler.State.{Action, pure}
use schwarz_kernel.Compiler.Vars.{type_int}
use schwarz_kernel.Compiler.Parser.{is_type, type_number}
use schwarz_kernel.Compiler.Expr.{
  peek_value, negate, unary, divide_by_zero, factor_code, factor, factor_or_fail, is_factor,
  term_loop, term, plus_or_minus, add_offset, offset_pointer, pointer_distance, sum_code, addend,
  addexpr_loop, addexpr, relation_code, relexpr, eqexpr, conjunct, andexpr_loop, andexpr, disjunct,
  orexpr_loop, orexpr, expr_with, primary, expr,
}
use schwarz_kernel.Compiler.Looks.{Looks-look_at}
use schwarz_kernel.Compiler.Good.{Run}
use schwarz_kernel.Compiler.Keeps.{
  Keeps, Keeps-Looks, Keeps-pure, Keeps-bind, Keeps-zero, Keeps-weaken,
}
use schwarz_kernel.Compiler.ParserKeeps.{parser_rules}
use schwarz_kernel.Compiler.Advances.{Advances-consume, Advances-peek_line, Keeps-peek_if}
use schwarz_kernel.Compiler.PrimaryKeeps.{Keeps-set_expr_ok, Keeps-primary_with}

module _ {r : Run} {fuel : ℕ} where
  pub Keeps-peek_value : Keeps r fuel peek_value
  unfolding peek_value
  Keeps-peek_value = Keeps-Looks _ (Looks-look_at (λ s. s.curr) (λ t. t.value) (λ s. omega arith))

  pub Keeps-divide_by_zero : (a : ℕ) (b : VarType) → Keeps r fuel (divide_by_zero a b)
  unfolding divide_by_zero
  Keeps-divide_by_zero a b = search (parser_rules, Keeps-set_expr_ok) depth 30

  pub Keeps-factor_code : (a : TokenType) → Keeps r fuel (factor_code a)
  unfolding factor_code
  Keeps-factor_code a = search parser_rules depth 30

  pub Keeps-plus_or_minus : (a : TokenType) → Keeps r fuel (plus_or_minus a)
  unfolding plus_or_minus
  Keeps-plus_or_minus a = search parser_rules depth 30

  pub Keeps-add_offset : (a : TokenType) (b : VarType) → Keeps r fuel (add_offset a b)
  unfolding add_offset
  Keeps-add_offset a b = search (parser_rules, Keeps-plus_or_minus) depth 30

  pub Keeps-offset_pointer : (a : VarType) → Keeps r fuel (offset_pointer a)
  unfolding offset_pointer
  Keeps-offset_pointer a = search parser_rules depth 30

  pub Keeps-pointer_distance : (a : VarType) → Keeps r fuel (pointer_distance a)
  unfolding pointer_distance
  Keeps-pointer_distance a = search parser_rules depth 30

  pub Keeps-sum_code : (a : TokenType) (b : VarType) (c : VarType) → Keeps r fuel (sum_code a b c)
  unfolding sum_code
  Keeps-sum_code a b c =
      search
        (
          parser_rules, Keeps-plus_or_minus, Keeps-add_offset, Keeps-offset_pointer,
          Keeps-pointer_distance,
        )
        depth 30

  pub Keeps-relation_code : (op : TokenType) → Keeps r fuel (relation_code op)
  unfolding relation_code
  Keeps-relation_code t_lt = search parser_rules
  Keeps-relation_code t_gt = search parser_rules
  Keeps-relation_code t_leq = search parser_rules
  Keeps-relation_code t_geq = search parser_rules
  Keeps-relation_code _ = Keeps-pure tt

  ruleset operator_rules = (
    parser_rules, Keeps-set_expr_ok, Keeps-peek_value, Keeps-divide_by_zero, Keeps-factor_code,
    Keeps-sum_code, Keeps-relation_code,
  )

  pub Keeps-negate :
      (primary' : Action VarType) → Keeps r fuel primary' → Keeps r fuel (negate primary')
  unfolding negate
  Keeps-negate primary' kp = search operator_rules depth 30

  pub Keeps-unary :
      (primary' : Action VarType) → Keeps r fuel primary' → Keeps r fuel (unary primary')
  unfolding unary
  Keeps-unary primary' kp = search (operator_rules, Keeps-negate) depth 30

  pub Keeps-factor :
      (primary' : Action VarType) (op : TokenType)
      → Keeps r fuel primary'
      → Keeps r fuel (factor primary' op)
  unfolding factor
  Keeps-factor primary' op kp = search (operator_rules, Keeps-unary) depth 30

  pub Keeps-factor_or_fail :
      (line : ℕ) (op : TokenType) (t : VarType) (rest : Action VarType)
      → Keeps r fuel rest
      → Keeps r fuel (factor_or_fail line op t rest)
  unfolding factor_or_fail
  Keeps-factor_or_fail line op t rest k = search operator_rules depth 30

  pub Keeps-addend :
      (right : Action VarType) (op : TokenType) (t : VarType)
      → Keeps r fuel right
      → Keeps r fuel (addend right op t)
  unfolding addend
  Keeps-addend right op t k = search operator_rules depth 30

  pub Keeps-conjunct : (right : Action VarType) → Keeps r fuel right → Keeps r fuel (conjunct right)
  unfolding conjunct
  Keeps-conjunct right k = search operator_rules depth 30

  pub Keeps-disjunct : (right : Action VarType) → Keeps r fuel right → Keeps r fuel (disjunct right)
  unfolding disjunct
  Keeps-disjunct right k = search operator_rules depth 30

-- The loops have as much fuel as there are tokens left.
module _ {r : Run} where
  pub Keeps-term_loop :
      (n : ℕ) (primary' : Action VarType) (t : VarType)
      → Keeps r n primary'
      → Keeps r n (term_loop n primary' t)
  unfolding term_loop is_factor type_number
  Keeps-term_loop zero primary' t kp = Keeps-zero _
  Keeps-term_loop (suc n) primary' t kp =
      let k = Keeps-weaken n (suc n) primary' (omega arith) kp in
      let ih : Keeps r n (term_loop n primary' type_int) = Keeps-term_loop n primary' type_int k in
      Keeps-peek_if is_factor _ (λ _. pure t) refl
        (λ u ne. Advances-peek_line _ λ line. Advances-consume _ λ op.
          Keeps-factor_or_fail _ _ _ _ (Keeps-bind _ _ (Keeps-factor primary' op.type k) λ _. ih))
        (λ _. Keeps-pure t)

  pub Keeps-term :
      (n : ℕ) (primary' : Action VarType) → Keeps r n primary' → Keeps r n (term n primary')
  unfolding term
  Keeps-term n primary' kp =
      Keeps-bind _ _ (Keeps-unary primary' kp) (λ t. Keeps-term_loop n primary' t kp)

  pub Keeps-addexpr_loop :
      (n k : ℕ) (primary' : Action VarType) (t : VarType)
      → Keeps r n (term k primary')
      → Keeps r n (addexpr_loop n k primary' t)
  unfolding addexpr_loop type_number
  Keeps-addexpr_loop zero k primary' t kt = Keeps-zero _
  Keeps-addexpr_loop (suc n) k primary' t kt =
      let kt' = Keeps-weaken n (suc n) (term k primary') (omega arith) kt in
      let ih : (t : VarType) → Keeps r n (addexpr_loop n k primary' t) =
        λ t. Keeps-addexpr_loop n k primary' t kt' in
      Keeps-peek_if (λ next. is_type t_plus next || is_type t_minus next) _ (λ _. pure t) refl
        (λ u ne. Advances-consume _ λ op. Keeps-bind _ _ (Keeps-addend _ op.type t kt') ih)
        (λ _. Keeps-pure t)

  pub Keeps-addexpr :
      (n : ℕ) (primary' : Action VarType) → Keeps r n primary' → Keeps r n (addexpr n primary')
  unfolding addexpr
  Keeps-addexpr n primary' kp =
      let kt = Keeps-term n primary' kp in
      Keeps-bind _ _ kt (λ t. Keeps-addexpr_loop n n primary' t kt)

  pub Keeps-relexpr :
      (n : ℕ) (primary' : Action VarType) → Keeps r n primary' → Keeps r n (relexpr n primary')
  unfolding relexpr
  Keeps-relexpr n primary' kp = search (operator_rules, Keeps-addexpr) depth 30

  pub Keeps-eqexpr :
      (n : ℕ) (primary' : Action VarType) → Keeps r n primary' → Keeps r n (eqexpr n primary')
  unfolding eqexpr
  Keeps-eqexpr n primary' kp = search (operator_rules, Keeps-relexpr) depth 30

  pub Keeps-andexpr_loop :
      (n k : ℕ) (primary' : Action VarType) (t : VarType)
      → Keeps r n (eqexpr k primary')
      → Keeps r n (andexpr_loop n k primary' t)
  unfolding andexpr_loop type_number
  Keeps-andexpr_loop zero k primary' t kt = Keeps-zero _
  Keeps-andexpr_loop (suc n) k primary' t kt =
      let kt' = Keeps-weaken n (suc n) (eqexpr k primary') (omega arith) kt in
      let ih : (t : VarType) → Keeps r n (andexpr_loop n k primary' t) =
        λ t. Keeps-andexpr_loop n k primary' t kt' in
      Keeps-peek_if (λ next. is_type t_and next) _ (λ _. pure t) refl
        (λ u ne. Advances-consume _ λ _. Keeps-bind _ _ (Keeps-conjunct _ kt') λ _. ih type_int)
        (λ _. Keeps-pure t)

  pub Keeps-andexpr :
      (n : ℕ) (primary' : Action VarType) → Keeps r n primary' → Keeps r n (andexpr n primary')
  unfolding andexpr
  Keeps-andexpr n primary' kp =
      let kt = Keeps-eqexpr n primary' kp in
      Keeps-bind _ _ kt (λ t. Keeps-andexpr_loop n n primary' t kt)

  pub Keeps-orexpr_loop :
      (n k : ℕ) (primary' : Action VarType) (t : VarType)
      → Keeps r n (andexpr k primary')
      → Keeps r n (orexpr_loop n k primary' t)
  unfolding orexpr_loop type_number
  Keeps-orexpr_loop zero k primary' t kt = Keeps-zero _
  Keeps-orexpr_loop (suc n) k primary' t kt =
      let kt' = Keeps-weaken n (suc n) (andexpr k primary') (omega arith) kt in
      let ih : (t : VarType) → Keeps r n (orexpr_loop n k primary' t) =
        λ t. Keeps-orexpr_loop n k primary' t kt' in
      Keeps-peek_if (λ next. is_type t_or next) _ (λ _. pure t) refl
        (λ u ne. Advances-consume _ λ _. Keeps-bind _ _ (Keeps-disjunct _ kt') λ _. ih type_int)
        (λ _. Keeps-pure t)

  pub Keeps-orexpr :
      (n : ℕ) (primary' : Action VarType) → Keeps r n primary' → Keeps r n (orexpr n primary')
  unfolding orexpr
  Keeps-orexpr n primary' kp =
      let kt = Keeps-andexpr n primary' kp in
      Keeps-bind _ _ kt (λ t. Keeps-orexpr_loop n n primary' t kt)

  pub Keeps-expr_with :
      (n : ℕ) (primary' : Action VarType) → Keeps r n primary' → Keeps r n (expr_with n primary')
  unfolding expr_with
  Keeps-expr_with n primary' kp = search (operator_rules, Keeps-orexpr) depth 30

  pub Keeps-primary : (n : ℕ) → Keeps r n (primary n)
  unfolding primary
  Keeps-primary zero = Keeps-zero _
  Keeps-primary (suc n) =
      let k = Keeps-primary n in
      record { at = λ i h s l. (Keeps-primary_with _ _ k (Keeps-expr_with n _ k)).at i h s l }

  -- With as much fuel as there are tokens left, an expression is parsed.
  pub Keeps-expr : (n : ℕ) → Keeps r n (expr n)
  unfolding expr
  Keeps-expr n = Keeps-expr_with n (primary n) (Keeps-primary n)
