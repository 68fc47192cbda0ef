-- ===== src/Compiler/ControlKeeps.antt =====
-- compiler.cpp: the statements that jump, and `statement`: each consumes its first token, returns and keeps the state of
-- the parser good.
use schwarz_kernel.Prelude.{ℕ, zero, suc, ◌≤◌, ◌≢◌, ◌≡◌, Bool, true, ◌&&◌, List, arith}
use schwarz_kernel.Compiler.Tokens.{VarType, TokenType, is_type_token, t_eof, t_ident, t_number}
use schwarz_kernel.Compiler.State.{Action, modify, and_then, ◌>>=◌}
use schwarz_kernel.Compiler.Parser.{is_type, type_number}
use schwarz_kernel.Compiler.Statement.{skip_statement}
use schwarz_kernel.Compiler.Expr.{expr}
use schwarz_kernel.Compiler.Control.{
  code_position, set_return_seen, leave_code, return_statement, empty_condition, while_statement,
  jump_if, do_statement, for_body, for_statement, if_without_condition, if_with_condition,
  if_statement, stray_else, stray_token, statement_branch, peek_after, statement_with, statement,
}
use schwarz_kernel.Compiler.Looks.{Looks, Looks-if, Looks-pure, Looks-peek_next}
use schwarz_kernel.Compiler.Good.{Run}
use schwarz_kernel.Compiler.Keeps.{
  Keeps, Advances, On, Keeps-gets, Keeps-Looks, Keeps-modify, Keeps-bind, Keeps-zero,
  Keeps-patch_i32,
}
use schwarz_kernel.Compiler.ParserKeeps.{parser_rules}
use schwarz_kernel.Compiler.Advances.{
  advances_rules, Advances-if, Advances-if_known, Advances-peek_known, Advances-Looks, On-Keeps,
  Keeps-dispatch,
}
use schwarz_kernel.Compiler.ExprKeeps.{Keeps-expr}
use schwarz_kernel.Compiler.ClausesKeeps.{Keeps-block, Keeps-for_init, Keeps-for_post}
use schwarz_kernel.Compiler.StatementKeeps.{
  Keeps-end_statement, Advances-skip_statement, Advances-declaration, Advances-store_through,
  Advances-named_statement, Advances-prefix_statement, Advances-assign_literal,
}

Looks-peek_after : (t : TokenType) → Looks (peek_after t)
unfolding peek_after
Looks-peek_after t = Looks-if _ _ _ Looks-peek_next (Looks-pure t_eof)

module _ {r : Run} {fuel : ℕ} where
  pub Keeps-code_position : Keeps r fuel code_position
  unfolding code_position
  Keeps-code_position = Keeps-gets _

  Keeps-set_return_seen : Keeps r fuel set_return_seen
  unfolding set_return_seen
  Keeps-set_return_seen =
      Keeps-modify _
        (λ s g. record {
          kept = g.kept;
          few_errors = g.few_errors;
          few_vars = g.few_vars;
          laid = g.laid;
        })
        (λ s. omega arith)

  pub Keeps-leave_code : Keeps r fuel leave_code
  unfolding leave_code
  Keeps-leave_code = search parser_rules depth 30

  pub Keeps-empty_condition : (a : List ℕ) → Keeps r fuel (empty_condition a)
  unfolding empty_condition
  Keeps-empty_condition a = search parser_rules depth 30

  pub Keeps-jump_if : (a : ℕ) → Keeps r fuel (jump_if a)
  unfolding jump_if
  Keeps-jump_if a = search (parser_rules, Keeps-patch_i32) depth 30

  pub Keeps-if_without_condition :
      (a : Action (Unit {0})) → Keeps r fuel a → Keeps r fuel (if_without_condition a)
  unfolding if_without_condition
  Keeps-if_without_condition a ka = search (parser_rules, Keeps-empty_condition) depth 30

  ruleset jump_rules = (
    parser_rules, Keeps-for_init, Keeps-for_post, Keeps-end_statement, Keeps-code_position,
    Keeps-leave_code, Keeps-empty_condition, Keeps-jump_if, Keeps-if_without_condition,
  )

  pub Keeps-for_body :
      (a : Action VarType) (b : Action (Unit {0})) (c : ℕ) (d : Action (Unit {0}))
      → Keeps r fuel a
      → Keeps r fuel b
      → Keeps r fuel d
      → Keeps r fuel (for_body a b c d)
  unfolding for_body
  Keeps-for_body a b c d ka kb kd = search jump_rules depth 30

  pub Keeps-if_with_condition :
      (a : Action VarType) (b : Action (Unit {0}))
      → Keeps r fuel a
      → Keeps r fuel b
      → Keeps r fuel (if_with_condition a b)
  unfolding if_with_condition
  Keeps-if_with_condition a b ka kb = search jump_rules depth 30

  Keeps-stray_token : (t : TokenType) → Keeps r fuel (stray_token t)
  unfolding stray_token
  Keeps-stray_token t = search parser_rules depth 30

  ruleset control_rules = (jump_rules, Keeps-for_body, Keeps-if_with_condition)

module _ {r : Run} {fuel : ℕ} {t : TokenType} where
  Advances-set_return_seen :
      {A : Type 0} (f : Unit {0} → Action A)
      → Advances r fuel t (f tt)
      → Advances r fuel t (set_return_seen >>= f)
  unfolding set_return_seen modify ◌>>=◌ and_then
  Advances-set_return_seen f a = record {
    at = λ i h s l e.
        a.at i h _
          (record {
            good = record {
              kept = l.good.kept;
              few_errors = l.good.few_errors;
              few_vars = l.good.few_vars;
              laid = l.good.laid;
            };
            left = l.left;
          })
          e;
  }

  pub Advances-return_statement :
      (a : Action VarType) → t ≢ t_eof → Keeps r fuel a → Advances r fuel t (return_statement a)
  unfolding return_statement
  Advances-return_statement a ne ka =
      search (advances_rules, Advances-set_return_seen, control_rules) depth 30

  pub Advances-while_statement :
      (a : Action VarType) (b : Action (Unit {0}))
      → t ≢ t_eof
      → Keeps r fuel a
      → Keeps r fuel b
      → Advances r fuel t (while_statement a b)
  unfolding while_statement
  Advances-while_statement a b ne ka kb = search (advances_rules, control_rules) depth 30

  pub Advances-do_statement :
      (a : Action VarType) (b : Action (Unit {0}))
      → t ≢ t_eof
      → Keeps r fuel a
      → Keeps r fuel b
      → Advances r fuel t (do_statement a b)
  unfolding do_statement
  Advances-do_statement a b ne ka kb = search (advances_rules, control_rules) depth 30

  pub Advances-for_statement :
      (a : Action VarType) (b : Action (Unit {0}))
      → t ≢ t_eof
      → Keeps r fuel a
      → Keeps r fuel b
      → Advances r fuel t (for_statement a b)
  unfolding for_statement
  Advances-for_statement a b ne ka kb = search (advances_rules, control_rules) depth 30

  pub Advances-if_statement :
      (a : Action VarType) (b : Action (Unit {0}))
      → t ≢ t_eof
      → Keeps r fuel a
      → Keeps r fuel b
      → Advances r fuel t (if_statement a b)
  unfolding if_statement
  Advances-if_statement a b ne ka kb = search (advances_rules, control_rules) depth 30

  pub Advances-stray_else :
      (a : Action (Unit {0})) → t ≢ t_eof → Keeps r fuel a → Advances r fuel t (stray_else a)
  unfolding stray_else
  Advances-stray_else a ne ka = search (advances_rules, control_rules) depth 30

  pub Advances-stray_token : (a : TokenType) → t ≢ t_eof → Advances r fuel t (stray_token a)
  unfolding stray_token
  Advances-stray_token a ne = search (advances_rules, control_rules) depth 30

  -- The two branches that may skip from their first token on have none that ends a statement.
  Advances-skip_ident :
      is_type t_ident t ≡ true → t ≢ t_eof → Advances r fuel t (skip_statement (suc fuel))
  unfolding type_number
  Advances-skip_ident h ne = Advances-skip_statement (ground (arith, h)) (ground (arith, h)) ne

  Advances-skip_number :
      (b : Bool)
      → is_type t_number t && b ≡ true
      → t ≢ t_eof
      → Advances r fuel t (skip_statement (suc fuel))
  unfolding type_number
  Advances-skip_number b h ne = Advances-skip_statement (ground (arith, h)) (ground (arith, h)) ne

  Advances-statement_branch :
      (a : Action VarType) (b : Action (Unit {0})) (next : TokenType)
      → t ≢ t_eof
      → Keeps r fuel a
      → Keeps r fuel b
      → Advances r fuel t (statement_branch (suc fuel) a b t next)
  unfolding statement_branch
  Advances-statement_branch a b next ne ka kb = Advances-if _ _ _ (Advances-declaration a ne ka) (
      Advances-if _ _ _ (Advances-store_through a ne ka) (
        Advances-if_known _ _ _ (λ h. Advances-named_statement a ne (Advances-skip_ident h ne) ka)
          (Advances-if _ _ _ (Advances-prefix_statement ne) (
            Advances-if_known _ _ _ (λ h. Advances-assign_literal (Advances-skip_number _ h ne))
              (Advances-if _ _ _ (Advances-return_statement a ne ka) (
                Advances-if _ _ _ (Advances-while_statement a b ne ka kb) (
                  Advances-if _ _ _ (Advances-do_statement a b ne ka kb) (
                    Advances-if _ _ _ (Advances-for_statement a b ne ka kb) (
                      Advances-if _ _ _ (Advances-if_statement a b ne ka kb) (
                        Advances-if _ _ _ (Advances-stray_else b ne kb)
                          (Advances-stray_token t ne)))))))))))

  Advances-statement_with :
      (a : Action VarType) (b : Action (Unit {0}))
      → t ≢ t_eof
      → Keeps r fuel a
      → Keeps r fuel b
      → Advances r fuel t (statement_with (suc fuel) a b)
  unfolding statement_with
  Advances-statement_with a b ne ka kb =
      Advances-peek_known _ (
        Advances-Looks _ _ (Looks-peek_after t) λ next. Advances-statement_branch a b next ne ka kb)

module _ {r : Run} {fuel : ℕ} where
  -- At the end there is an error, and one token more is consumed.
  On-statement_branch :
      (k : ℕ) (a : Action VarType) (b : Action (Unit {0}))
      → On r fuel t_eof (peek_after t_eof >>= statement_branch k a b t_eof)
  unfolding statement_branch type_number is_type_token
  On-statement_branch k a b =
      On-Keeps _
        (Keeps-bind _ _ (Keeps-Looks _ (Looks-peek_after t_eof)) λ next. Keeps-stray_token t_eof)

module _ {r : Run} where
  Keeps-statement_with :
      {fuel : ℕ} (a : Action VarType) (b : Action (Unit {0}))
      → Keeps r fuel a
      → Keeps r fuel b
      → Keeps r (suc fuel) (statement_with (suc fuel) a b)
  unfolding statement_with
  Keeps-statement_with a b ka kb =
      Keeps-dispatch _
        (λ t ne.
          Advances-Looks _ _ (Looks-peek_after t)
            λ next. Advances-statement_branch a b next ne ka kb)
        (On-statement_branch _ a b)

-- A statement with enough fuel returns and keeps the state good; on a token that is not the end it consumes.
record StatementIsSound (r : Run) (n : ℕ) : Type 0 where
  keeps : Keeps r n (statement n)
  advances : (j : ℕ) → suc j ≤ n → (t : TokenType) → t ≢ t_eof → Advances r j t (statement n)

statement-StatementIsSound : (r : Run) (n : ℕ) → StatementIsSound r n
unfolding statement
statement-StatementIsSound r zero = record {
  keeps = Keeps-zero _;
  advances = λ j h t ne. absurd (omega (arith, h));
}
statement-StatementIsSound r (suc n) =
    let ih = statement-StatementIsSound r n in
    let kb = Keeps-block (statement n) n ih.advances ih.keeps in
    record {
      keeps = record {
        at = λ i h s l. (Keeps-statement_with (expr n) _ (Keeps-expr n) kb).at i h s l;
      };
      advances = λ j h t ne. record {
        at = λ i l s x e.
            (Advances-statement_with (expr n) _ ne (Keeps-expr n) kb).at i (omega (arith, l, h)) s x
              e;
      };
    }

pub Keeps-statement : (r : Run) (n : ℕ) → Keeps r n (statement n)
Keeps-statement r n = (statement-StatementIsSound r n).keeps

pub Advances-statement :
    (r : Run) (n : ℕ) (t : TokenType) → t ≢ t_eof → Advances r n t (statement (suc n))
Advances-statement r n t ne = (statement-StatementIsSound r (suc n)).advances n (omega arith) t ne
