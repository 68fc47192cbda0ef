-- ===== src/Compiler/StatementKeeps.antt =====
-- compiler.cpp: the statements without jumps consume their first token, return and keep the state of the parser good.
use schwarz_kernel.Prelude.{
  ℕ, zero, suc, ◌≢◌, ◌≡◌, refl, Bool, false, ◌||◌, List, if◌then◌else◌, arith,
}
use schwarz_kernel.Compiler.Tokens.{VarType, TokenType, t_eof, t_semicolon}
use schwarz_kernel.Compiler.State.{Var, Action, pure, ◌>>◌}
use schwarz_kernel.Compiler.Parser.{is_type, consume, type_number}
use schwarz_kernel.Compiler.Statement.{
  skip_loop, skip_statement, end_statement, declared, declare_name, declaration, store_code,
  store_found, store_through, store_element, element_found, assign_element, assign_variable,
  update_initialized, update_variable, step_variable, postfix_statement, named_statement,
  prefix_statement, assign_literal,
}
use schwarz_kernel.Compiler.Good.{Run}
use schwarz_kernel.Compiler.Keeps.{
  Keeps, Advances, Keeps-pure, Keeps-bind, Keeps-zero, Keeps-weaken,
}
use schwarz_kernel.Compiler.ParserKeeps.{Keeps-peek, parser_rules}
use schwarz_kernel.Compiler.Advances.{
  Advances-var_find_ptr, Advances-consume, Advances-peek_known, Advances-bind, Keeps-peek_unless,
  advances_rules,
}
use schwarz_kernel.Compiler.ClausesKeeps.{writing_rules}

module _ {r : Run} where
  pub Keeps-skip_loop : (n : ℕ) → Keeps r n (skip_loop n)
  unfolding skip_loop type_number
  Keeps-skip_loop zero = Keeps-zero _
  Keeps-skip_loop (suc n) =
      Keeps-peek_unless (λ t. is_type t_semicolon t || is_type t_eof t) (λ _. pure tt) _ refl
        (λ _. Keeps-pure tt) (λ t ne. Advances-consume _ λ _. Keeps-skip_loop n)

  Keeps-semicolon :
      {n : ℕ} (t : TokenType)
      → Keeps r n (if is_type t_semicolon t then consume >> pure tt else pure tt)
  Keeps-semicolon t = search parser_rules

  pub Keeps-skip_statement : {n : ℕ} → Keeps r n (skip_statement (suc n))
  unfolding skip_statement
  Keeps-skip_statement {n = n} =
      Keeps-bind _ _ (Keeps-weaken n (suc n) _ (omega arith) (Keeps-skip_loop (suc n)))
        λ _. Keeps-bind _ _ Keeps-peek Keeps-semicolon

  -- Skipping consumes, but on a semicolon and at the end.
  pub Advances-skip_statement :
      {n : ℕ} {t : TokenType}
      → is_type t_semicolon t ≡ false
      → is_type t_eof t ≡ false
      → t ≢ t_eof
      → Advances r n t (skip_statement (suc n))
  unfolding skip_statement skip_loop
  Advances-skip_statement {n = n} e ee ne =
      Advances-bind _ _
        (Advances-peek_known _ (rw (e, ee) (Advances-consume _ λ _. Keeps-skip_loop n)))
        λ _. Keeps-bind _ _ Keeps-peek Keeps-semicolon

module _ {r : Run} {fuel : ℕ} where
  pub Keeps-end_statement : Keeps r fuel end_statement
  unfolding end_statement
  Keeps-end_statement = search parser_rules

  ruleset ending_rules = (writing_rules, Keeps-skip_statement, Keeps-end_statement)

  pub Keeps-declared :
      (b : Action VarType) (c : ℕ) (d : List ℕ) (e : VarType) (f : ℕ)
      → Keeps r fuel b
      → Keeps r fuel (declared (suc fuel) b c d e f)
  unfolding declared
  Keeps-declared b c d e f kb = search ending_rules depth 30

  pub Keeps-store_code :
      (a : Action VarType) (b : Var) → Keeps r fuel a → Keeps r fuel (store_code a b)
  unfolding store_code
  Keeps-store_code a b ka = search ending_rules depth 30

  pub Keeps-store_element :
      (a : Action VarType) (b : Var) → Keeps r fuel a → Keeps r fuel (store_element a b)
  unfolding store_element
  Keeps-store_element a b ka = search ending_rules depth 30

  pub Keeps-update_initialized :
      (b : Action VarType) (c : ℕ) (d : List ℕ) (e : TokenType) (f : Var)
      → Keeps r fuel b
      → Keeps r fuel (update_initialized (suc fuel) b c d e f)
  unfolding update_initialized
  Keeps-update_initialized b c d e f kb = search ending_rules depth 30

  pub Keeps-step_variable :
      (b : ℕ) (c : Bool) (d : List ℕ) → Keeps r fuel (step_variable (suc fuel) b c d)
  unfolding step_variable
  Keeps-step_variable b c d = search ending_rules depth 30

  ruleset part_rules = (
    ending_rules, Keeps-declared, Keeps-store_code, Keeps-store_element, Keeps-update_initialized,
    Keeps-step_variable,
  )

  pub Keeps-declare_name :
      (b : Action VarType) (c : ℕ) (d : VarType)
      → Keeps r fuel b
      → Keeps r fuel (declare_name (suc fuel) b c d)
  unfolding declare_name
  Keeps-declare_name b c d kb = search part_rules depth 30

  pub Keeps-store_found :
      (b : Action VarType) (c : ℕ) (d : List ℕ) (e : Var)
      → Keeps r fuel b
      → Keeps r fuel (store_found (suc fuel) b c d e)
  unfolding store_found
  Keeps-store_found b c d e kb = search part_rules depth 30

  pub Keeps-element_found :
      (b : Action VarType) (c : ℕ) (d : List ℕ) (e : Var)
      → Keeps r fuel b
      → Keeps r fuel (element_found (suc fuel) b c d e)
  unfolding element_found
  Keeps-element_found b c d e kb = search part_rules depth 30

  ruleset named_rules = (part_rules, Keeps-declare_name, Keeps-store_found, Keeps-element_found)

module _ {r : Run} {fuel : ℕ} {t : TokenType} where
  pub Advances-declaration :
      (b : Action VarType)
      → t ≢ t_eof
      → Keeps r fuel b
      → Advances r fuel t (declaration (suc fuel) b)
  unfolding declaration
  Advances-declaration b ne kb = search (advances_rules, named_rules) depth 30

  pub Advances-store_through :
      (b : Action VarType)
      → t ≢ t_eof
      → Keeps r fuel b
      → Advances r fuel t (store_through (suc fuel) b)
  unfolding store_through
  Advances-store_through b ne kb = search (advances_rules, named_rules) depth 30

  pub Advances-assign_variable :
      (b : Action VarType) (c : ℕ) (d : List ℕ)
      → t ≢ t_eof
      → Keeps r fuel b
      → Advances r fuel t (assign_variable (suc fuel) b c d)
  unfolding assign_variable
  Advances-assign_variable b c d ne kb = search (advances_rules, named_rules) depth 30

  pub Advances-update_variable :
      (b : Action VarType) (c : ℕ) (d : List ℕ)
      → t ≢ t_eof
      → Keeps r fuel b
      → Advances r fuel t (update_variable (suc fuel) b c d)
  unfolding update_variable
  Advances-update_variable b c d ne kb = search (advances_rules, named_rules) depth 30

  pub Advances-postfix_statement :
      (b : ℕ) (c : List ℕ) → t ≢ t_eof → Advances r fuel t (postfix_statement (suc fuel) b c)
  unfolding postfix_statement
  Advances-postfix_statement b c ne = search (advances_rules, named_rules) depth 30

  pub Advances-prefix_statement : t ≢ t_eof → Advances r fuel t (prefix_statement (suc fuel))
  unfolding prefix_statement
  Advances-prefix_statement ne = search (advances_rules, named_rules) depth 30

  Advances-element_found :
      (a : Action VarType) (line : ℕ) (name : List ℕ) (v : Var)
      → t ≢ t_eof
      → Advances r fuel t (skip_statement (suc fuel))
      → Keeps r fuel a
      → Advances r fuel t (element_found (suc fuel) a line name v)
  unfolding element_found
  Advances-element_found a line name v ne skip ka = search (advances_rules, named_rules) depth 30

  Advances-assign_element :
      (a : Action VarType) (line : ℕ) (name : List ℕ)
      → t ≢ t_eof
      → Advances r fuel t (skip_statement (suc fuel))
      → Keeps r fuel a
      → Advances r fuel t (assign_element (suc fuel) a line name)
  unfolding assign_element
  Advances-assign_element a line name ne skip ka =
      search (advances_rules, named_rules, Advances-var_find_ptr, Advances-element_found) depth 30

  pub Advances-named_statement :
      (a : Action VarType)
      → t ≢ t_eof
      → Advances r fuel t (skip_statement (suc fuel))
      → Keeps r fuel a
      → Advances r fuel t (named_statement (suc fuel) a)
  unfolding named_statement
  Advances-named_statement a ne skip ka =
      search
        (
          advances_rules, Advances-assign_element, Advances-assign_variable,
          Advances-update_variable, Advances-postfix_statement,
        )
        depth 30

  pub Advances-assign_literal :
      Advances r fuel t (skip_statement (suc fuel)) → Advances r fuel t (assign_literal (suc fuel))
  unfolding assign_literal
  Advances-assign_literal skip = search advances_rules depth 30
