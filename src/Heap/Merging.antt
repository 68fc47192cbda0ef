-- ===== src/Heap/Merging.antt =====
-- The list of blocks after free: what merging does to blocks that do not overlap.
use schwarz_kernel.Prelude.{
  ℕ, ◌≡◌, inl, Bool, true, false, List, [], ◌∷◌, ◌++◌, if◌then◌else◌, arith,
}
use schwarz_kernel.Heap.Blocks.{Block, limit, Outside, Clear, Apart}
use schwarz_kernel.Heap.Release.{joined, Adjacent, absorb}

-- The block before takes in the first one, where it is free.
abbrev pub with_prev : Block → List Block → List Block
with_prev p [] = p ∷ []
with_prev p (c ∷ cs) = if p.used then p ∷ c ∷ cs else joined p c ∷ cs

Clear-joined :
    (b c : Block) (bs : List Block)
    → Clear b bs
    → Clear c bs
    → limit b ≡ c.addr
    → Clear (joined b c) bs
Clear-joined b c [] p q h = tt
Clear-joined b c (d ∷ bs) p q h = (ground arith, Clear-joined b c bs p.1 q.1 h)

pub Clear-absorb :
    (p b : Block) (bs : List Block) → Adjacent b bs → Clear p (b ∷ bs) → Clear p (absorb b bs)
Clear-absorb p b [] h c = c
Clear-absorb p b (d ∷ bs) h c = go d.used
  where
    go : (u : Bool) → Clear p (if u then b ∷ d ∷ bs else joined b d ∷ bs)
    go true = c
    go false = (ground arith, c.1.1)

pub Apart-absorb :
    (b : Block) (bs : List Block) → Adjacent b bs → Apart (b ∷ bs) → Apart (absorb b bs)
Apart-absorb b [] h a = a
Apart-absorb b (d ∷ bs) h a = go d.used
  where
    go : (u : Bool) → Apart (if u then b ∷ d ∷ bs else joined b d ∷ bs)
    go true = a
    go false = (omega (arith, a.2.0), Clear-joined b d bs a.1.1 a.2.1 h, a.2.2)

pub Outside-absorb :
    (x : ℕ) (b : Block) (bs : List Block)
    → Adjacent b bs
    → Outside x (b ∷ bs)
    → Outside x (absorb b bs)
Outside-absorb x b [] h o = o
Outside-absorb x b (d ∷ bs) h o = go d.used
  where
    go : (u : Bool) → Outside x (if u then b ∷ d ∷ bs else joined b d ∷ bs)
    go true = o
    go false = (ground arith, o.1.1)

-- The block `b`, given back.
abbrev pub given_back : Block → Block
given_back b = record b { used = false }

Clear-with_prev :
    (q p c : Block) (cs : List Block)
    → limit p ≡ c.addr
    → Clear q (p ∷ c ∷ cs)
    → Clear q (with_prev p (c ∷ cs))
Clear-with_prev q p c cs e x = go p.used
  where
    go : (u : Bool) → Clear q (if u then p ∷ c ∷ cs else joined p c ∷ cs)
    go true = x
    go false = (ground arith, x.1.1)

Apart-with_prev :
    (p c : Block) (cs : List Block)
    → limit p ≡ c.addr
    → Apart (p ∷ c ∷ cs)
    → Apart (with_prev p (c ∷ cs))
Apart-with_prev p c cs e a = go p.used
  where
    go : (u : Bool) → Apart (if u then p ∷ c ∷ cs else joined p c ∷ cs)
    go true = a
    go false = (omega (arith, a.2.0), Clear-joined p c cs a.1.1 a.2.1 e, a.2.2)

-- What is clear of three blocks in a row is clear of what they become.
Clear-freed :
    (q p b : Block) (bs : List Block)
    → limit p ≡ b.addr
    → Adjacent b bs
    → Clear q (p ∷ b ∷ bs)
    → Clear q (with_prev p (absorb b bs))
Clear-freed q p b [] e n x = Clear-with_prev q p b [] e x
Clear-freed q p b (d ∷ ds) e n x = go d.used
  where
    go : (u : Bool) → Clear q (with_prev p (if u then b ∷ d ∷ ds else joined b d ∷ ds))
    go true = Clear-with_prev q p b (d ∷ ds) e x
    go false = Clear-with_prev q p (joined b d) ds e (x.0, (ground arith, x.1.1.1))

Apart-freed :
    (p b : Block) (bs : List Block)
    → limit p ≡ b.addr
    → Adjacent b bs
    → Apart (p ∷ b ∷ bs)
    → Apart (with_prev p (absorb b bs))
Apart-freed p b [] e n a = Apart-with_prev p b [] e a
Apart-freed p b (d ∷ ds) e n a = go d.used
  where
    go : (u : Bool) → Apart (with_prev p (if u then b ∷ d ∷ ds else joined b d ∷ ds))
    go true = Apart-with_prev p b (d ∷ ds) e a
    go false = Apart-with_prev p (joined b d) ds e (
      a.0,
      (inl (omega (arith, e)), a.1.1.1),
      (omega (arith, a.2.2.0), Clear-joined b d ds a.2.1.1 a.2.2.1 n, a.2.2.2),
    )

Clear-behind :
    (q : Block) (ps : List Block) (p b : Block) (bs : List Block)
    → limit p ≡ b.addr
    → Adjacent b bs
    → Clear q (ps ++ p ∷ b ∷ bs)
    → Clear q (ps ++ with_prev p (absorb (given_back b) bs))
Clear-behind q [] p b bs e n x = Clear-freed q p (given_back b) bs e n x
Clear-behind q (r ∷ ps) p b bs e n x = (x.0, Clear-behind q ps p b bs e n x.1)

pub Apart-behind :
    (ps : List Block) (p b : Block) (bs : List Block)
    → limit p ≡ b.addr
    → Adjacent b bs
    → Apart (ps ++ p ∷ b ∷ bs)
    → Apart (ps ++ with_prev p (absorb (given_back b) bs))
Apart-behind [] p b bs e n a = Apart-freed p (given_back b) bs e n a
Apart-behind (q ∷ ps) p b bs e n a =
    (a.0, Clear-behind q ps p b bs e n a.1, Apart-behind ps p b bs e n a.2)
