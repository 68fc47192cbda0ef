-- ===== src/Compiler/Keeps.antt =====
-- compiler.cpp: actions that keep the state of the parser good and return, one rule for each way to build one.
use schwarz_kernel.Prelude.{
  subst, ℕ, zero, suc, ◌+◌, ◌≤◌, ◌≡◌, refl, Bool, true, false, Option, none, some, List, [], ◌∷◌,
  ◌++◌, ◌-◌, ◌<◌, length, length-append, leb, ltb, if◌then◌else◌, arith,
}
use schwarz_kernel.Compiler.Tokens.{VarType, TokenType}
use schwarz_kernel.Compiler.State.{
  Var, Parser, Ending, finished, out_of_time, out_of_bounds, token_place, var_place, code_place,
  Action, pure, gets, modify, and_then, ◌>>=◌, if_some, add_error, add_error_tok,
}
use schwarz_kernel.Compiler.Vars.{new_var, var_alloc, var_mark_initialized}
use schwarz_kernel.Compiler.Emitter.{emit_byte, write_byte, write_i32, patch_i32}
use schwarz_kernel.Compiler.Parser.{consume}
use schwarz_kernel.Compiler.Layout.{Laid-new_var, Laid-mark_var, length-mark_var}
use schwarz_kernel.Compiler.Looks.{Looked, Looks}
use schwarz_kernel.Compiler.Good.{
  Run, Good, Left, IsOutside, Overrun, Good-moved, write_byte-CodeKept, write_i32-CodeKept,
  Good-add_error, Good-add_error_tok,
}

-- The action has returned, in a good state with fewer than `i` tokens left, or is at an access outside an array, in a good state.
unfoldable pub Returns : {A : Type 0} → Run → ℕ → Ending A → Type 0
Returns r i out_of_time = ⊥
Returns r i (out_of_bounds p s) = Overrun r p s
Returns r i (finished a s) = Left r i s

-- Where fewer than `fuel` tokens are left, the action returns so, with no more tokens left.
pub record Keeps {A : Type 0} (r : Run) (fuel : ℕ) (m : Action A) : Type 0 where
  pub at : (i : ℕ) → i ≤ fuel → (s : Parser) → Left r i s → Returns r i (m s)

-- The same where the next token is of type `t`.
pub record On {A : Type 0} (r : Run) (fuel : ℕ) (t : TokenType) (m : Action A) : Type 0 where
  pub at :
      (i : ℕ)
      → i ≤ fuel
      → (s : Parser) → Left r i s
      → (s.tokens s.curr).type ≡ t
      → Returns r i (m s)

-- On the token `t` the action also consumes.
pub record Advances {A : Type 0} (r : Run) (fuel : ℕ) (t : TokenType) (m : Action A) : Type 0 where
  pub at :
      (i : ℕ)
      → i ≤ fuel
      → (s : Parser) → Left r (suc i) s
      → (s.tokens s.curr).type ≡ t
      → Returns r i (m s)

module _ {r : Run} where
  pub Left-weaken : (i j : ℕ) (s : Parser) → i ≤ j → Left r i s → Left r j s
  Left-weaken i j s h l = record { good = l.good; left = omega (arith, l.left) }

  -- A token of the array is one of those left.
  pub Left-consume :
      (i : ℕ) (s : Parser)
      → s.curr < 1024
      → Left r (suc i) s
      → Left r i (record s { curr = s.curr + 1 })
  Left-consume i s h l = record { good = Good-moved r s _ l.good; left = omega (arith, l.left, h) }

pub Returns-weaken :
    (r : Run) {A : Type 0} (i j : ℕ) (o : Ending A) → i ≤ j → Returns r i o → Returns r j o
unfolding Returns
Returns-weaken r i j out_of_time h l = absurd l
Returns-weaken r i j (out_of_bounds p s) h l = l
Returns-weaken r i j (finished _ s) h l = Left-weaken i j s h l

-- What consuming does where a token is left.
pub consume-Returns : {r : Run} (i : ℕ) (s : Parser) → Left r (suc i) s → Returns r i (consume s)
unfolding Returns consume IsOutside
consume-Returns {r = r} i s l = go (ltb s.curr 1024) refl
  where
    go :
        (u : Bool)
        → ltb s.curr 1024 ≡ u
        → Returns r i (
            if u
            then finished (s.tokens s.curr) (record s { curr = s.curr + 1 })
            else out_of_bounds (token_place s.curr) s)
    go true e = Left-consume i s (ground (arith, e)) l
    go false e = record { good = l.good; outside = (ground (arith, e), omega arith) }

length-new_var : (vs : List Var) (v : Var) → length vs < 64 → length (vs ++ v ∷ []) ≤ 64
length-new_var vs v h = grind (arith, length-append)

module _ {r : Run} {fuel : ℕ} where
  pub Keeps-pure : {A : Type 0} (a : A) → Keeps r fuel (pure a)
  unfolding Returns pure
  Keeps-pure a = record { at = λ i h s l. l }

  pub Keeps-gets : {A : Type 0} (f : Parser → A) → Keeps r fuel (gets f)
  unfolding Returns gets
  Keeps-gets f = record { at = λ i h s l. l }

  pub Keeps-if :
      {A : Type 0} (b : Bool) (m n : Action A)
      → Keeps r fuel m
      → Keeps r fuel n
      → Keeps r fuel (if b then m else n)
  Keeps-if true m n km kn = km
  Keeps-if false m n km kn = kn

  pub Keeps-if_some :
      {A B : Type 0} (o : Option A) (m : Action B) (f : A → Action B)
      → Keeps r fuel m
      → ((a : A) → Keeps r fuel (f a))
      → Keeps r fuel (if_some o m f)
  unfolding if_some
  Keeps-if_some none m f km kf = km
  Keeps-if_some (some a) m f km kf = kf a

  pub Returns-and_then :
      {A B : Type 0} (i : ℕ) (o : Ending A) (f : A → Action B)
      → i ≤ fuel
      → Returns r i o
      → ((a : A) → Keeps r fuel (f a))
      → Returns r i (and_then o f)
  unfolding Returns and_then
  Returns-and_then i out_of_time f h l k = absurd l
  Returns-and_then i (out_of_bounds p s) f h l k = l
  Returns-and_then i (finished a s) f h l k = (k a).at i h s l

  pub Keeps-bind :
      {A B : Type 0} (m : Action A) (f : A → Action B)
      → Keeps r fuel m
      → ((a : A) → Keeps r fuel (f a))
      → Keeps r fuel (m >>= f)
  unfolding ◌>>=◌
  Keeps-bind m f km kf = record { at = λ i h s l. Returns-and_then i (m s) f h (km.at i h s l) kf }

  -- A change of the state that keeps it good and moves no token.
  pub Keeps-modify :
      (f : Parser → Parser)
      → ((s : Parser) → Good r s → Good r (f s))
      → ((s : Parser) → s.curr ≤ (f s).curr)
      → Keeps r fuel (modify f)
  unfolding Returns modify
  Keeps-modify f g c = record {
    at = λ i h s l. record { good = g s l.good; left = omega (arith, l.left, c s) };
  }

  pub Keeps-Looks : {A : Type 0} (m : Action A) → Looks m → Keeps r fuel m
  unfolding Returns Looked
  Keeps-Looks {A = A} m k = record { at = λ i h s l. go i s l (m s) (k.at s) }
    where
      go : (i : ℕ) (s : Parser) → Left r i s → (o : Ending A) → Looked s o → Returns r i o
      go i s l (finished a s') q = subst (Left r i) q l
      go i s l out_of_time q = q
      go i s l (out_of_bounds p s') q =
          subst (Overrun r p) q.0 (record { good = l.good; outside = q.1 })

  pub Keeps-consume : Keeps r fuel consume
  Keeps-consume = record {
    at = λ i h s l.
        Returns-weaken r (i - 1) i (consume s) (omega arith)
          (consume-Returns (i - 1) s (Left-weaken i (suc (i - 1)) s (omega (arith, l.left)) l));
  }

  pub Keeps-add_error : (line : ℕ) (msg : List ℕ) → Keeps r fuel (add_error line msg)
  unfolding add_error
  Keeps-add_error line msg = Keeps-modify _ (λ s g. Good-add_error line msg g) (λ s. omega arith)

  pub Keeps-add_error_tok :
      (line : ℕ) (msg detail : List ℕ) → Keeps r fuel (add_error_tok line msg detail)
  unfolding add_error_tok
  Keeps-add_error_tok line msg detail =
      Keeps-modify _ (λ s g. Good-add_error_tok line msg detail g) (λ s. omega arith)

  pub Keeps-var_alloc : (name : List ℕ) (vt : VarType) (n : ℕ) → Keeps r fuel (var_alloc name vt n)
  unfolding Returns var_alloc IsOutside
  Keeps-var_alloc name vt n = record { at = λ i h s l. go i s l (ltb (length s.vars) 64) refl }
    where
      go :
          (i : ℕ) (s : Parser)
          → Left r i s
          → (u : Bool) → ltb (length s.vars) 64 ≡ u
          → let v = new_var name vt n s.stack_size in
            Returns r i (
              if u
              then finished v.offset (record s { stack_size = v.offset; vars = s.vars ++ v ∷ [] })
              else out_of_bounds (var_place (length s.vars)) s)
      go i s l true e = record {
        good = record {
          kept = l.good.kept;
          few_errors = l.good.few_errors;
          few_vars = length-new_var s.vars _ (ground (arith, e));
          laid = Laid-new_var s.vars 0 s.stack_size name vt n l.good.laid;
        };
        left = l.left;
      }
      go i s l false e = record { good = l.good; outside = (ground (arith, e), refl) }

  pub Keeps-var_mark_initialized : (name : List ℕ) → Keeps r fuel (var_mark_initialized name)
  unfolding var_mark_initialized
  Keeps-var_mark_initialized name =
      Keeps-modify _
        (λ s g. record {
          kept = g.kept;
          few_errors = g.few_errors;
          few_vars = length-mark_var name s.vars g.few_vars;
          laid = Laid-mark_var name s.vars 0 s.stack_size g.laid;
        })
        (λ s. omega arith)

  pub Keeps-patch_i32 : (p v : ℕ) → r.start ≤ p → p ≤ 65536 → Keeps r fuel (patch_i32 p v)
  unfolding Returns patch_i32 IsOutside
  Keeps-patch_i32 p v lo hi = record { at = λ i h s l. go i s l (leb (p + 4) 65536) refl }
    where
      go :
          (i : ℕ) (s : Parser)
          → Left r i s
          → (u : Bool) → leb (p + 4) 65536 ≡ u
          → Returns r i (
              if u
              then finished tt (record s { code_buffer = write_i32 p v s.code_buffer })
              else out_of_bounds (code_place p) s)
      go i s l true e = record {
        good = record {
          kept =
              write_i32-CodeKept r p v s.code_idx s.code_buffer lo (ground (arith, e)) l.good.kept;
          few_errors = l.good.few_errors;
          few_vars = l.good.few_vars;
          laid = l.good.laid;
        };
        left = l.left;
      }
      go i s l false e = record { good = l.good; outside = (ground (arith, e), hi) }

  pub Keeps-emit_byte : (b : ℕ) → Keeps r fuel (emit_byte b)
  unfolding emit_byte Returns modify
  Keeps-emit_byte b = record { at = λ i h s l. go i s l (ltb s.code_idx 65536) refl }
    where
      go :
          (i : ℕ) (s : Parser)
          → Left r i s
          → (u : Bool) → ltb s.code_idx 65536 ≡ u
          → Left r i (
              if u
              then record s {
                code_buffer = write_byte s.code_idx b s.code_buffer;
                code_idx = s.code_idx + 1;
              }
              else s)
      go i s l true e = record {
        good = record {
          kept = write_byte-CodeKept r b s.code_idx s.code_buffer (ground (arith, e)) l.good.kept;
          few_errors = l.good.few_errors;
          few_vars = l.good.few_vars;
          laid = l.good.laid;
        };
        left = l.left;
      }
      go i s l false e = l

-- No token is left: there is no such state.
pub Keeps-zero : {r : Run} {A : Type 0} (m : Action A) → Keeps r zero m
Keeps-zero m = record { at = λ i h s l. absurd (omega (arith, l.left, h)) }

pub Keeps-weaken :
    {r : Run} {A : Type 0} (j fuel : ℕ) (m : Action A) → j ≤ fuel → Keeps r fuel m → Keeps r j m
Keeps-weaken j fuel m h k = record { at = λ i l s x. k.at i (omega (arith, l, h)) s x }

pub ruleset keeps_rules = (
  Keeps-pure, Keeps-gets, Keeps-if, Keeps-if_some, Keeps-bind, Keeps-consume, Keeps-add_error,
  Keeps-add_error_tok, Keeps-var_alloc, Keeps-var_mark_initialized, Keeps-emit_byte,
)
