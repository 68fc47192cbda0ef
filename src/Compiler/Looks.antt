-- ===== src/Compiler/Looks.antt =====
-- compiler.cpp: actions that look at tokens ahead and leave the state as it is.
use schwarz_kernel.Prelude.{
  ℕ, ◌+◌, ◌≤◌, ◌≡◌, refl, sym, subst, Bool, true, false, ltb, if◌then◌else◌, copy_cstr, arith,
}
use schwarz_kernel.Compiler.Lexer.{Token}
use schwarz_kernel.Compiler.State.{
  Parser, Ending, finished, out_of_time, out_of_bounds, token_place, Action, pure, look_at,
  and_then, ◌>>=◌,
}
use schwarz_kernel.Compiler.Parser.{
  peek, peek_next, peek_line, peek_name, is_cast_closed, is_cast_ahead,
}
use schwarz_kernel.Compiler.Good.{IsOutside}

unfoldable pub Looked : {A : Type 0} → Parser → Ending A → Type 0
Looked s (finished a s') = s ≡ s'
Looked s out_of_time = ⊥
Looked s (out_of_bounds p s') = (s ≡ s') × IsOutside s p

-- The action returns and leaves the state, or is at an access outside an array.
pub record Looks {A : Type 0} (m : Action A) : Type 0 where
  pub at : (s : Parser) → Looked s (m s)

pub Looks-look_at :
    {A : Type 0} (g : Parser → ℕ) (f : Token → A)
    → ((s : Parser) → g s ≤ s.curr + 3)
    → Looks (look_at g f)
unfolding Looked look_at IsOutside
Looks-look_at g f near = record { at = λ s. go s (ltb (g s) 1024) refl }
  where
    go :
        (s : Parser) (u : Bool)
        → ltb (g s) 1024 ≡ u
        → Looked s
            (if u then finished (f (s.tokens (g s))) s else out_of_bounds (token_place (g s)) s)
    go s true e = refl
    go s false e = (refl, (ground (arith, e), near s))

pub Looks-pure : {A : Type 0} (a : A) → Looks (pure a)
unfolding Looked pure
Looks-pure a = record { at = λ s. refl }

pub Looks-if :
    {A : Type 0} (b : Bool) (m n : Action A) → Looks m → Looks n → Looks (if b then m else n)
Looks-if true m n lm ln = lm
Looks-if false m n lm ln = ln

Looks-bind :
    {A B : Type 0} (m : Action A) (f : A → Action B)
    → Looks m
    → ((a : A) → Looks (f a))
    → Looks (m >>= f)
unfolding Looked ◌>>=◌ and_then
Looks-bind {A = A} m f lm lf = record { at = λ s. go s (m s) (lm.at s) }
  where
    go : (s : Parser) (o : Ending A) → Looked s o → Looked s (and_then o f)
    go s (finished a s') q = subst (λ x. Looked x (f a s')) (sym q) ((lf a).at s')
    go s out_of_time q = q
    go s (out_of_bounds p s') q = q

pub Looks-peek : Looks peek
unfolding peek
Looks-peek = Looks-look_at (λ s. s.curr) (λ t. t.type) (λ s. omega arith)

pub Looks-peek_next : Looks peek_next
unfolding peek_next
Looks-peek_next = Looks-look_at (λ s. s.curr + 1) (λ t. t.type) (λ s. omega arith)

pub Looks-peek_line : Looks peek_line
unfolding peek_line
Looks-peek_line = Looks-look_at (λ s. s.curr) (λ t. t.line) (λ s. omega arith)

pub Looks-peek_name : Looks peek_name
unfolding peek_name
Looks-peek_name = Looks-look_at (λ s. s.curr) (λ t. copy_cstr t.ident 32) (λ s. omega arith)

ruleset looking_rules = (Looks-pure, Looks-if, Looks-bind, Looks-peek, Looks-peek_next)

Looks-is_cast_closed : Looks is_cast_closed
unfolding is_cast_closed
Looks-is_cast_closed =
    let second : Looks (look_at (λ s. s.curr + 2) (λ t. t.type)) =
      Looks-look_at (λ s. s.curr + 2) (λ t. t.type) (λ s. omega arith) in
    let third : Looks (look_at (λ s. s.curr + 3) (λ t. t.type)) =
      Looks-look_at (λ s. s.curr + 3) (λ t. t.type) (λ s. omega arith) in
    Looks-bind _ _ second
      λ star. Looks-bind _ _ (Looks-if _ _ _ third (Looks-pure star)) λ last. Looks-pure _

pub Looks-is_cast_ahead : Looks is_cast_ahead
unfolding is_cast_ahead
Looks-is_cast_ahead = search (looking_rules, Looks-is_cast_closed) depth 30
