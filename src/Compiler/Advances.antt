-- ===== src/Compiler/Advances.antt =====
-- compiler.cpp: actions that consume the next token, and the choice by the next token.
use schwarz_kernel.Prelude.{
  ℕ, zero, suc, ◌≤◌, subst, ltb, ◌≡◌, ◌≢◌, refl, sym, ap, ◌∙◌, ◌⊎◌, inl, inr, not, Bool, true,
  false, Option, none, some, List, if◌then◌else◌, arith,
}
use schwarz_kernel.Compiler.Errors
use schwarz_kernel.Compiler.Tokens.{TokenType, t_eof}
use schwarz_kernel.Compiler.Lexer.{Token}
use schwarz_kernel.Compiler.State.{
  Var, Parser, Action, finished, out_of_bounds, token_place, out_of_time, Ending, look_at, gets,
  modify, and_then, ◌>>=◌, if_some, add_error, add_error_tok,
}
use schwarz_kernel.Compiler.Vars.{var_find_ptr}
use schwarz_kernel.Compiler.Parser.{
  type_number, is_type, peek, peek_next, peek_line, peek_name, consume, consume_name, parse_type,
  is_cast_ahead,
}
use schwarz_kernel.Compiler.Looks.{
  Looked, Looks, Looks-peek, Looks-peek_next, Looks-peek_line, Looks-peek_name, Looks-is_cast_ahead,
}
use schwarz_kernel.Compiler.Good.{Run, Left, IsOutside, Overrun, Good-add_error, Good-add_error_tok}
use schwarz_kernel.Compiler.Keeps.{
  Returns, Returns-and_then, Keeps, On, Advances, consume-Returns, Returns-weaken, Keeps-pure,
}
use schwarz_kernel.Compiler.ParserKeeps.{parser_rules}

-- What a test that the end fails tells of the token.
pub passed-ne_eof :
    (f : TokenType → Bool) (t : TokenType) → f t_eof ≡ false → f t ≡ true → t ≢ t_eof
passed-ne_eof f t e h = λ q. absurd (ground (arith, sym e ∙ ap f (sym q) ∙ h))

pub eof_or_other : (t : TokenType) → (t ≡ t_eof) ⊎ (t ≢ t_eof)
unfolding type_number
eof_or_other t_eof = inl refl
eof_or_other t = inr (passed-ne_eof (λ u. not (is_type t_eof u)) t refl refl)

module _ {r : Run} {fuel : ℕ} {t : TokenType} where
  pub On-Keeps : {A : Type 0} (m : Action A) → Keeps r fuel m → On r fuel t m
  On-Keeps m k = record { at = λ i h s l e. k.at i h s l }

  pub On-Advances : {A : Type 0} (m : Action A) → Advances r fuel t m → On r (suc fuel) t m
  On-Advances m a = record { at = at }
    where
      at :
          (i : ℕ)
          → i ≤ suc fuel
          → (s : Parser) → Left r i s
          → (s.tokens s.curr).type ≡ t
          → Returns r i (m s)
      at zero h s l e = absurd (omega (arith, l.left))
      at (suc i) h s l e =
          Returns-weaken r i (suc i) (m s) (omega arith) (a.at i (omega (arith, h)) s l e)

  pub Advances-consume :
      {A : Type 0} (f : Token → Action A)
      → ((x : Token) → Keeps r fuel (f x))
      → Advances r fuel t (consume >>= f)
  unfolding ◌>>=◌
  Advances-consume f k = record {
    at = λ i h s l e. Returns-and_then i (consume s) f h (consume-Returns i s l) k;
  }

  pub Advances-gets :
      {A B : Type 0} (g : Parser → B) (f : B → Action A)
      → ((b : B) → Advances r fuel t (f b))
      → Advances r fuel t (gets g >>= f)
  unfolding gets ◌>>=◌ and_then
  Advances-gets g f a = record { at = λ i h s l e. (a (g s)).at i h s l e }

  pub Advances-if :
      {A : Type 0} (b : Bool) (m n : Action A)
      → Advances r fuel t m
      → Advances r fuel t n
      → Advances r fuel t (if b then m else n)
  Advances-if true m n am an = am
  Advances-if false m n am an = an

  pub Advances-if_known :
      {A : Type 0} (b : Bool) (m n : Action A)
      → (b ≡ true → Advances r fuel t m)
      → Advances r fuel t n
      → Advances r fuel t (if b then m else n)
  Advances-if_known true m n am an = am refl
  Advances-if_known false m n am an = an

  pub Advances-if_some :
      {A B : Type 0} (o : Option A) (m : Action B) (f : A → Action B)
      → Advances r fuel t m
      → ((a : A) → Advances r fuel t (f a))
      → Advances r fuel t (if_some o m f)
  unfolding if_some
  Advances-if_some none m f am af = am
  Advances-if_some (some a) m f am af = af a

  -- The first part consumes.
  pub Advances-bind :
      {A B : Type 0} (m : Action A) (f : A → Action B)
      → Advances r fuel t m
      → ((a : A) → Keeps r fuel (f a))
      → Advances r fuel t (m >>= f)
  unfolding ◌>>=◌
  Advances-bind m f am kf = record {
    at = λ i h s l e. Returns-and_then i (m s) f h (am.at i h s l e) kf;
  }

  -- An error before the token is consumed.
  pub Advances-add_error :
      {A : Type 0} (line : ℕ) (msg : List ℕ) (f : Unit {0} → Action A)
      → Advances r fuel t (f tt)
      → Advances r fuel t (add_error line msg >>= f)
  unfolding add_error modify ◌>>=◌ and_then
  Advances-add_error line msg f a = record { at = λ i h s l e. a.at i h _ (Left-kept i s l) e }
    where
      Left-kept :
          (i : ℕ) (s : Parser)
          → Left r (suc i) s
          → Left r (suc i) (record s { errors = Errors.add_error line msg s.errors })
      Left-kept i s l = record { good = Good-add_error line msg l.good; left = l.left }

  pub Advances-add_error_tok :
      {A : Type 0} (line : ℕ) (msg detail : List ℕ) (f : Unit {0} → Action A)
      → Advances r fuel t (f tt)
      → Advances r fuel t (add_error_tok line msg detail >>= f)
  unfolding add_error_tok modify ◌>>=◌ and_then
  Advances-add_error_tok line msg detail f a = record {
    at = λ i h s l e. a.at i h _ (Left-kept i s l) e;
  }
    where
      Left-kept :
          (i : ℕ) (s : Parser)
          → Left r (suc i) s
          → Left r (suc i) (record s { errors = Errors.add_error_tok line msg detail s.errors })
      Left-kept i s l = record { good = Good-add_error_tok line msg detail l.good; left = l.left }

  -- A look at tokens ahead, and what follows it.
  pub Advances-Looks :
      {A B : Type 0} (m : Action B) (f : B → Action A)
      → Looks m
      → ((b : B) → Advances r fuel t (f b))
      → Advances r fuel t (m >>= f)
  unfolding ◌>>=◌ and_then Returns Looked
  Advances-Looks {B = B} m f k a = record { at = λ i h s l e. go i h s l e (m s) (k.at s) }
    where
      go :
          (i : ℕ)
          → i ≤ fuel
          → (s : Parser) → Left r (suc i) s
          → (s.tokens s.curr).type ≡ t
          → (o : Ending B) → Looked s o
          → Returns r i (and_then o f)
      go i h s l e (finished b s') q = subst (λ x. Returns r i (f b x)) q ((a b).at i h s l e)
      go i h s l e out_of_time q = q
      go i h s l e (out_of_bounds p s') q =
          subst (Overrun r p) q.0 (record { good = l.good; outside = q.1 })

  pub Advances-peek :
      {A : Type 0} (f : TokenType → Action A)
      → ((b : TokenType) → Advances r fuel t (f b))
      → Advances r fuel t (peek >>= f)
  Advances-peek f a = Advances-Looks peek f Looks-peek a

  pub Advances-peek_next :
      {A : Type 0} (f : TokenType → Action A)
      → ((b : TokenType) → Advances r fuel t (f b))
      → Advances r fuel t (peek_next >>= f)
  Advances-peek_next f a = Advances-Looks peek_next f Looks-peek_next a

  pub Advances-peek_line :
      {A : Type 0} (f : ℕ → Action A)
      → ((b : ℕ) → Advances r fuel t (f b))
      → Advances r fuel t (peek_line >>= f)
  Advances-peek_line f a = Advances-Looks peek_line f Looks-peek_line a

  pub Advances-peek_name :
      {A : Type 0} (f : List ℕ → Action A)
      → ((b : List ℕ) → Advances r fuel t (f b))
      → Advances r fuel t (peek_name >>= f)
  Advances-peek_name f a = Advances-Looks peek_name f Looks-peek_name a

  pub Advances-is_cast_ahead :
      {A : Type 0} (f : Bool → Action A)
      → ((b : Bool) → Advances r fuel t (f b))
      → Advances r fuel t (is_cast_ahead >>= f)
  Advances-is_cast_ahead f a = Advances-Looks is_cast_ahead f Looks-is_cast_ahead a

  pub Advances-var_find_ptr :
      {A : Type 0} (name : List ℕ) (f : Option Var → Action A)
      → ((v : Option Var) → Advances r fuel t (f v))
      → Advances r fuel t (var_find_ptr name >>= f)
  unfolding var_find_ptr
  Advances-var_find_ptr name f a = Advances-gets _ f a

  pub Advances-consume_name : Advances r fuel t consume_name
  unfolding consume_name
  Advances-consume_name = Advances-consume _ (λ x. Keeps-pure _)

  pub Advances-parse_type : Advances r fuel t parse_type
  unfolding parse_type
  Advances-parse_type = Advances-consume _ (λ x. search parser_rules depth 30)

-- The choice by the next token, each in its case.
pub Keeps-choice :
    {r : Run} {fuel : ℕ} {A : Type 0} (f : TokenType → Action A)
    → ((t : TokenType) → On r fuel t (f t))
    → Keeps r fuel (peek >>= f)
unfolding peek look_at ◌>>=◌ and_then Returns IsOutside
Keeps-choice {r = r} {fuel = fuel} f on = record {
  at = λ i h s l. go i h s l (ltb s.curr 1024) refl;
}
  where
    go :
        (i : ℕ)
        → i ≤ fuel
        → (s : Parser) → Left r i s
        → (u : Bool) → ltb s.curr 1024 ≡ u
        → Returns r i (
            and_then
              (if u
                then finished (s.tokens s.curr).type s
                else out_of_bounds (token_place s.curr) s)
              f)
    go i h s l true q = (on _).at i h s l refl
    go i h s l false q = record { good = l.good; outside = (ground (arith, q), omega arith) }

-- Every token but the end is consumed.
pub Keeps-dispatch :
    {r : Run} {fuel : ℕ} {A : Type 0} (f : TokenType → Action A)
    → ((t : TokenType) → t ≢ t_eof → Advances r fuel t (f t))
    → On r (suc fuel) t_eof (f t_eof)
    → Keeps r (suc fuel) (peek >>= f)
Keeps-dispatch {r = r} {fuel = fuel} f a on = Keeps-choice f λ t. go t (eof_or_other t)
  where
    go : (t : TokenType) → (t ≡ t_eof) ⊎ (t ≢ t_eof) → On r (suc fuel) t (f t)
    go t (inl e) = subst (λ u. On r (suc fuel) u (f u)) (sym e) on
    go t (inr ne) = On-Advances _ (a t ne)

-- Every token is consumed.
pub Keeps-consuming :
    {r : Run} {fuel : ℕ} {A : Type 0} (f : TokenType → Action A)
    → ((t : TokenType) → Advances r fuel t (f t))
    → Keeps r (suc fuel) (peek >>= f)
Keeps-consuming f a = Keeps-choice f λ t. On-Advances _ (a t)

-- A loop's test, which the end fails: where it holds a token is consumed.
pub Keeps-peek_if :
    {r : Run} {fuel : ℕ} {A : Type 0} (f : TokenType → Bool) (m n : TokenType → Action A)
    → f t_eof ≡ false
    → ((t : TokenType) → t ≢ t_eof → Advances r fuel t (m t))
    → ((t : TokenType) → Keeps r (suc fuel) (n t))
    → Keeps r (suc fuel) (peek >>= λ t. if f t then m t else n t)
Keeps-peek_if {r = r} {fuel = fuel} f m n e am kn = Keeps-choice _ λ t. go t (f t) refl
  where
    go : (t : TokenType) (u : Bool) → f t ≡ u → On r (suc fuel) t (if u then m t else n t)
    go t true h = On-Advances _ (am t (passed-ne_eof f t e h))
    go t false h = On-Keeps _ (kn t)

-- A loop's test for its end, which the end of the file passes.
pub Keeps-peek_unless :
    {r : Run} {fuel : ℕ} {A : Type 0} (f : TokenType → Bool) (m n : TokenType → Action A)
    → f t_eof ≡ true
    → ((t : TokenType) → Keeps r (suc fuel) (m t))
    → ((t : TokenType) → t ≢ t_eof → Advances r fuel t (n t))
    → Keeps r (suc fuel) (peek >>= λ t. if f t then m t else n t)
Keeps-peek_unless {r = r} {fuel = fuel} f m n e km an = Keeps-choice _ λ t. go t (f t) refl
  where
    go : (t : TokenType) (u : Bool) → f t ≡ u → On r (suc fuel) t (if u then m t else n t)
    go t true h = On-Keeps _ (km t)
    go t false h = On-Advances _ (an t λ q. absurd (ground (arith, sym e ∙ ap f (sym q) ∙ h)))

-- The next token is the one that is known.
pub Advances-peek_known :
    {r : Run} {fuel : ℕ} {t : TokenType} {A : Type 0} (f : TokenType → Action A)
    → Advances r fuel t (f t)
    → Advances r fuel t (peek >>= f)
unfolding peek look_at ◌>>=◌ and_then Returns IsOutside
Advances-peek_known {r = r} {fuel = fuel} {t = t} f a = record {
  at = λ i h s l e. go i h s l e (ltb s.curr 1024) refl;
}
  where
    go :
        (i : ℕ)
        → i ≤ fuel
        → (s : Parser) → Left r (suc i) s
        → (s.tokens s.curr).type ≡ t
        → (u : Bool) → ltb s.curr 1024 ≡ u
        → Returns r i (
            and_then
              (if u
                then finished (s.tokens s.curr).type s
                else out_of_bounds (token_place s.curr) s)
              f)
    go i h s l e true q = rw e (a.at i h s l e)
    go i h s l e false q = record { good = l.good; outside = (ground (arith, q), omega arith) }

pub Advances-weaken :
    {r : Run} {t : TokenType} {A : Type 0} (j fuel : ℕ) (m : Action A)
    → j ≤ fuel
    → Advances r fuel t m
    → Advances r j t m
Advances-weaken j fuel m h a = record { at = λ i l s x e. a.at i (omega (arith, l, h)) s x e }

pub ruleset advances_rules = (
  parser_rules, Advances-consume, Advances-peek, Advances-peek_next, Advances-peek_line,
  Advances-peek_name, Advances-if, Advances-if_some, Advances-bind, Advances-add_error,
  Advances-add_error_tok, Advances-consume_name, Advances-parse_type,
)
