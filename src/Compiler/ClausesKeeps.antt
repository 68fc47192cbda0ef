-- ===== src/Compiler/ClausesKeeps.antt =====
-- compiler.cpp: blocks and the parts of `for` return and keep the state of the parser good.
use schwarz_kernel.Prelude.{ℕ, zero, suc, ◌≤◌, ◌≢◌, refl, Bool, ◌||◌, List, arith}
use schwarz_kernel.Compiler.Tokens.{VarType, TokenType, t_eof, t_rbrace}
use schwarz_kernel.Compiler.State.{Var, Action, pure}
use schwarz_kernel.Compiler.Parser.{is_type, type_number}
use schwarz_kernel.Compiler.Clauses.{
  block_loop, braces, block, with_scalar, assign, update, initialize, for_variable, for_declaration,
  for_assignment, for_init, step_code, step_scalar, post_assign, for_post_named, for_post_step,
  for_post,
}
use schwarz_kernel.Compiler.Good.{Run}
use schwarz_kernel.Compiler.Keeps.{Keeps, Advances, Keeps-pure, Keeps-if, Keeps-bind, Keeps-zero}
use schwarz_kernel.Compiler.ParserKeeps.{Keeps-peek, parser_rules}
use schwarz_kernel.Compiler.Advances.{Advances-bind, Keeps-peek_unless}

module _ {r : Run} {fuel : ℕ} where
  pub Keeps-with_scalar :
      (a : Action (Unit {0})) (b : ℕ) (c : List ℕ) (d : List ℕ) (e : List ℕ)
      (f : (Var → Action (Unit {0})))
      → Keeps r fuel a
      → ((v : Var) → Keeps r fuel (f v))
      → Keeps r fuel (with_scalar a b c d e f)
  unfolding with_scalar
  Keeps-with_scalar a b c d e f ka kf = search parser_rules depth 30

  pub Keeps-assign :
      (a : Action VarType) (b : List ℕ) (c : Var) → Keeps r fuel a → Keeps r fuel (assign a b c)
  unfolding assign
  Keeps-assign a b c ka = search parser_rules depth 30

  pub Keeps-update :
      (a : Action VarType) (b : List ℕ) (c : TokenType) (d : Var)
      → Keeps r fuel a
      → Keeps r fuel (update a b c d)
  unfolding update
  Keeps-update a b c d ka = search parser_rules depth 30

  pub Keeps-initialize :
      (a : Action VarType) (b : ℕ) (c : List ℕ) (d : VarType) (e : ℕ)
      → Keeps r fuel a
      → Keeps r fuel (initialize a b c d e)
  unfolding initialize
  Keeps-initialize a b c d e ka = search parser_rules depth 30

  pub Keeps-step_code : (a : Bool) (b : Var) → Keeps r fuel (step_code a b)
  unfolding step_code
  Keeps-step_code a b = search parser_rules depth 30

  pub ruleset writing_rules = (
    parser_rules, Keeps-with_scalar, Keeps-assign, Keeps-update, Keeps-initialize, Keeps-step_code,
  )

  pub Keeps-for_variable :
      (a : Action VarType) (b : ℕ) (c : VarType)
      → Keeps r fuel a
      → Keeps r fuel (for_variable a b c)
  unfolding for_variable
  Keeps-for_variable a b c ka = search writing_rules depth 30

  pub Keeps-step_scalar : (a : Bool) (b : List ℕ) → Keeps r fuel (step_scalar a b)
  unfolding step_scalar
  Keeps-step_scalar a b = search writing_rules depth 30

  pub Keeps-post_assign :
      (a : Action VarType) (b : List ℕ) (c : TokenType) (d : Var)
      → Keeps r fuel a
      → Keeps r fuel (post_assign a b c d)
  unfolding post_assign
  Keeps-post_assign a b c d ka = search writing_rules depth 30

  ruleset choosing_rules = (writing_rules, Keeps-for_variable, Keeps-step_scalar, Keeps-post_assign)

  pub Keeps-for_declaration :
      (a : Action VarType) → Keeps r fuel a → Keeps r fuel (for_declaration a)
  unfolding for_declaration
  Keeps-for_declaration a ka = search choosing_rules depth 30

  pub Keeps-for_assignment : (a : Action VarType) → Keeps r fuel a → Keeps r fuel (for_assignment a)
  unfolding for_assignment
  Keeps-for_assignment a ka = search choosing_rules depth 30

  pub Keeps-for_post_named : (a : Action VarType) → Keeps r fuel a → Keeps r fuel (for_post_named a)
  unfolding for_post_named
  Keeps-for_post_named a ka = search choosing_rules depth 30

  pub Keeps-for_post_step : (a : Bool) → Keeps r fuel (for_post_step a)
  unfolding for_post_step
  Keeps-for_post_step a = search choosing_rules depth 30

  ruleset clause_rules = (
    choosing_rules, Keeps-for_declaration, Keeps-for_assignment, Keeps-for_post_named,
    Keeps-for_post_step,
  )

  pub Keeps-for_init : (a : Action VarType) → Keeps r fuel a → Keeps r fuel (for_init a)
  unfolding for_init
  Keeps-for_init a ka = search clause_rules depth 30

  pub Keeps-for_post : (a : Action VarType) → Keeps r fuel a → Keeps r fuel (for_post a)
  unfolding for_post
  Keeps-for_post a ka = search clause_rules depth 30

-- A block, of statements that consume a token unless it is the end.
module _ {r : Run} (statement' : Action (Unit {0})) where
  pub Keeps-block_loop :
      (n : ℕ)
      → ((j : ℕ) → suc j ≤ n → (t : TokenType) → t ≢ t_eof → Advances r j t statement')
      → Keeps r n (block_loop n statement')
  unfolding block_loop type_number
  Keeps-block_loop zero a = Keeps-zero _
  Keeps-block_loop (suc n) a =
      Keeps-peek_unless (λ t. is_type t_rbrace t || is_type t_eof t) (λ _. pure tt) _ refl
        (λ _. Keeps-pure tt)
        (λ t ne.
          Advances-bind _ _ (a n (omega arith) t ne)
            λ _. Keeps-block_loop n λ j h. a j (omega (arith, h)))

  Keeps-braces : (n : ℕ) → Keeps r n (block_loop n statement') → Keeps r n (braces n statement')
  unfolding braces
  Keeps-braces n k = search parser_rules depth 30

  pub Keeps-block :
      (n : ℕ)
      → ((j : ℕ) → suc j ≤ n → (t : TokenType) → t ≢ t_eof → Advances r j t statement')
      → Keeps r n statement'
      → Keeps r n (block n statement')
  unfolding block
  Keeps-block n a k =
      Keeps-bind _ _ Keeps-peek λ t. Keeps-if _ _ _ (Keeps-braces n (Keeps-block_loop n a)) k
