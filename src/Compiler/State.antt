-- ===== src/Compiler/State.antt =====
-- compiler.cpp: the state of the parser and emitter, and the actions on it.
use schwarz_kernel.Prelude.{ℕ, Bool, Option, none, some, List, ltb, if◌then◌else◌}
use schwarz_kernel.Compiler.Errors
use schwarz_kernel.Compiler.Errors.{CompileError}
use schwarz_kernel.Compiler.Tokens.{VarType}
use schwarz_kernel.Compiler.Lexer.{Token}

-- `offset` is an int by its 32 bits, and so is `stack_size` below.
pub record Var : Type 0 where
  pub name : List ℕ
  pub offset : ℕ
  pub vtype : VarType
  pub initialized : Bool
  pub elem_count : ℕ

-- `tokens` is `token_stream`, read at the indices below 1024, and `code_buffer` is written at those below
-- 65536. `vars` is `var_table[0..var_count)`, which has 64 slots. The source does not stay within these
-- arrays: an access outside of one is where a run of the model ends.
pub record Parser : Type 0 where
  pub tokens : ℕ → Token
  pub curr : ℕ
  pub expr_ok : Bool
  pub explicit_return_seen : Bool
  pub errors : List CompileError
  pub vars : List Var
  pub stack_size : ℕ
  pub code_buffer : ℕ → ℕ
  pub code_idx : ℕ

-- An index outside an array: of `token_stream`, of `var_table`, or the first of the four bytes that a
-- patch writes to `code_buffer`.
pub data Place : Type 0 where
  token_place var_place code_place : ℕ → Place

-- How an action ends: with a value and the next state, without fuel, or at an access outside an array.
pub data Ending (A : Type 0) : Type 0 where
  finished : A → Parser → Ending A
  out_of_time : Ending A
  out_of_bounds : Place → Parser → Ending A

abbrev pub Action : Type 0 → Type 0
Action A = Parser → Ending A

module _ {A : Type 0} where
  unfoldable pub pure : A → Action A
  pure a s = finished a s

  unfoldable pub out_of_fuel : Action A
  out_of_fuel s = out_of_time

  unfoldable pub gets : (Parser → A) → Action A
  gets f s = finished (f s) s

  -- A read of the token at an index.
  unfoldable pub look_at : (Parser → ℕ) → (Token → A) → Action A
  look_at i f s =
      if ltb (i s) 1024
      then finished (f (s.tokens (i s))) s
      else out_of_bounds (token_place (i s)) s

unfoldable pub modify : (Parser → Parser) → Action (Unit {0})
modify f s = finished tt (f s)

module _ {A B : Type 0} where
  -- What follows the outcome of an action.
  unfoldable pub and_then : Ending A → (A → Action B) → Ending B
  and_then out_of_time f = out_of_time
  and_then (out_of_bounds p s) f = out_of_bounds p s
  and_then (finished a s) f = f a s

  infixl 5 ◌>>=◌ ◌>>◌
  unfoldable pub ◌>>=◌ : Action A → (A → Action B) → Action B
  (m >>= f) s = and_then (m s) f

  abbrev pub ◌>>◌ : Action A → Action B → Action B
  m >> n = m >>= λ _. n

  -- A test for a null pointer.
  unfoldable pub if_some : Option A → Action B → (A → Action B) → Action B
  if_some none m f = m
  if_some (some a) m f = f a

unfoldable pub add_error : ℕ → List ℕ → Action (Unit {0})
unfolding modify
add_error line msg = modify λ s. record s { errors = Errors.add_error line msg s.errors }

unfoldable pub add_error_tok : ℕ → List ℕ → List ℕ → Action (Unit {0})
unfolding modify
add_error_tok line msg detail =
    modify λ s. record s { errors = Errors.add_error_tok line msg detail s.errors }
