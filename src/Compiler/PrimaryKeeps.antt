-- ===== src/Compiler/PrimaryKeeps.antt =====
-- compiler.cpp: primary expressions return and keep the state of the parser good.
use schwarz_kernel.Prelude.{ℕ, suc, Bool, List, arith}
use schwarz_kernel.Compiler.Tokens.{VarType, TokenType}
use schwarz_kernel.Compiler.State.{Var, Action}
use schwarz_kernel.Compiler.Primary.{
  set_expr_ok, primary_with, primary_branch, unexpected, address_named, element, fail_expr,
  fail_with, fail_with_tok, fail_with_zero, post_step, step_found, step_named, truncate_code,
  use_variable, whole_array, cast, logical_not, pre_step, number, identifier, dereference,
  address_of, parenthesis,
}
use schwarz_kernel.Compiler.Good.{Run}
use schwarz_kernel.Compiler.Keeps.{Keeps, Advances, Keeps-modify}
use schwarz_kernel.Compiler.ParserKeeps.{parser_rules}
use schwarz_kernel.Compiler.Advances.{
  advances_rules, Advances-if, Advances-is_cast_ahead, Keeps-consuming,
}

module _ {r : Run} {fuel : ℕ} where
  pub Keeps-set_expr_ok : (ok : Bool) → Keeps r fuel (set_expr_ok ok)
  unfolding set_expr_ok
  Keeps-set_expr_ok ok =
      Keeps-modify _
        (λ s g. record {
          kept = g.kept;
          few_errors = g.few_errors;
          few_vars = g.few_vars;
          laid = g.laid;
        })
        (λ s. omega arith)

  ruleset fail_rules = (parser_rules, Keeps-set_expr_ok)

  pub Keeps-fail_expr : Keeps r fuel fail_expr
  unfolding fail_expr
  Keeps-fail_expr = search fail_rules depth 30

  ruleset failing_rules = (fail_rules, Keeps-fail_expr)

  pub Keeps-fail_with : (a : ℕ) (b : List ℕ) → Keeps r fuel (fail_with a b)
  unfolding fail_with
  Keeps-fail_with a b = search failing_rules depth 30

  pub Keeps-fail_with_tok : (a : ℕ) (b : List ℕ) (c : List ℕ) → Keeps r fuel (fail_with_tok a b c)
  unfolding fail_with_tok
  Keeps-fail_with_tok a b c = search failing_rules depth 30

  pub Keeps-fail_with_zero : (a : ℕ) (b : List ℕ) (c : List ℕ) → Keeps r fuel (fail_with_zero a b c)
  unfolding fail_with_zero
  Keeps-fail_with_zero a b c = search failing_rules depth 30

  pub Keeps-truncate_code : (a : VarType) → Keeps r fuel (truncate_code a)
  unfolding truncate_code
  Keeps-truncate_code a = search failing_rules depth 30

  ruleset part_rules = (
    failing_rules, Keeps-fail_with, Keeps-fail_with_tok, Keeps-fail_with_zero, Keeps-truncate_code,
  )

  pub Keeps-step_found :
      (a : Bool) (b : ℕ) (c : List ℕ) (d : Var) → Keeps r fuel (step_found a b c d)
  unfolding step_found
  Keeps-step_found a b c d = search part_rules depth 30

  pub Keeps-element :
      (a : Action VarType) (b : ℕ) (c : List ℕ) (d : Var)
      → Keeps r fuel a
      → Keeps r fuel (element a b c d)
  unfolding element
  Keeps-element a b c d ka = search part_rules depth 30

  pub Keeps-post_step : (a : Var) → Keeps r fuel (post_step a)
  unfolding post_step
  Keeps-post_step a = search part_rules depth 30

  pub Keeps-whole_array : (a : Var) → Keeps r fuel (whole_array a)
  unfolding whole_array
  Keeps-whole_array a = search part_rules depth 30

  pub Keeps-address_named : (a : ℕ) → Keeps r fuel (address_named a)
  unfolding address_named
  Keeps-address_named a = search part_rules depth 30

  ruleset found_rules = (
    part_rules, Keeps-step_found, Keeps-element, Keeps-post_step, Keeps-whole_array,
    Keeps-address_named,
  )

  pub Keeps-step_named : (a : Bool) (b : ℕ) → Keeps r fuel (step_named a b)
  unfolding step_named
  Keeps-step_named a b = search found_rules depth 30

  pub Keeps-use_variable :
      (a : Action VarType) (b : ℕ) (c : List ℕ) (d : Var)
      → Keeps r fuel a
      → Keeps r fuel (use_variable a b c d)
  unfolding use_variable
  Keeps-use_variable a b c d ka = search found_rules depth 30

  ruleset primary_rules = (found_rules, Keeps-step_named, Keeps-use_variable)

module _ {r : Run} {fuel : ℕ} {t : TokenType} where
  pub Advances-cast : (a : Action VarType) → Keeps r fuel a → Advances r fuel t (cast a)
  unfolding cast
  Advances-cast a ka = search (advances_rules, primary_rules) depth 30

  pub Advances-logical_not :
      (a : Action VarType) → Keeps r fuel a → Advances r fuel t (logical_not a)
  unfolding logical_not
  Advances-logical_not a ka = search (advances_rules, primary_rules) depth 30

  pub Advances-pre_step : (a : Bool) → Advances r fuel t (pre_step a)
  unfolding pre_step
  Advances-pre_step a = search (advances_rules, primary_rules) depth 30

  pub Advances-number : Advances r fuel t number
  unfolding number
  Advances-number = search (advances_rules, primary_rules) depth 30

  pub Advances-identifier : (a : Action VarType) → Keeps r fuel a → Advances r fuel t (identifier a)
  unfolding identifier
  Advances-identifier a ka = search (advances_rules, primary_rules) depth 30

  pub Advances-dereference :
      (a : Action VarType) → Keeps r fuel a → Advances r fuel t (dereference a)
  unfolding dereference
  Advances-dereference a ka = search (advances_rules, primary_rules) depth 30

  pub Advances-address_of : Advances r fuel t address_of
  unfolding address_of
  Advances-address_of = search (advances_rules, primary_rules) depth 30

  pub Advances-parenthesis :
      (a : Action VarType) → Keeps r fuel a → Advances r fuel t (parenthesis a)
  unfolding parenthesis
  Advances-parenthesis a ka = search (advances_rules, primary_rules) depth 30

  pub Advances-unexpected : Advances r fuel t (unexpected t)
  unfolding unexpected
  Advances-unexpected = search (advances_rules, primary_rules) depth 30

  pub Advances-primary_branch :
      (primary' expr' : Action VarType) (is_cast : Bool)
      → Keeps r fuel primary'
      → Keeps r fuel expr'
      → Advances r fuel t (primary_branch primary' expr' t is_cast)
  unfolding primary_branch
  Advances-primary_branch primary' expr' is_cast kp ke =
      search
        (
          Advances-if, Advances-cast, Advances-logical_not, Advances-pre_step, Advances-number,
          Advances-identifier, Advances-dereference, Advances-address_of, Advances-parenthesis,
          Advances-unexpected,
        )
        depth 30

module _ {r : Run} {fuel : ℕ} where
  -- Where the calls that it makes keep the state good, for less fuel.
  pub Keeps-primary_with :
      (primary' expr' : Action VarType)
      → Keeps r fuel primary'
      → Keeps r fuel expr'
      → Keeps r (suc fuel) (primary_with primary' expr')
  unfolding primary_with
  Keeps-primary_with primary' expr' kp ke =
      Keeps-consuming _ λ t.
        Advances-is_cast_ahead _ λ is_cast. Advances-primary_branch primary' expr' is_cast kp ke
