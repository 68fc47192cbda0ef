-- ===== src/Heap/Blocks.antt =====
-- The heap as a list of blocks, and how the headers in memory represent it.
use schwarz_kernel.Prelude.{
  ℕ, ◌+◌, ◌≤◌, ◌<◌, ◌≡◌, ◌≢◌, ◌⊎◌, refl, ap, ◌∙◌, inl, inr, Bool, Option, none, some, List, [], ◌∷◌,
  arith,
}
use schwarz_kernel.Heap.Store.{heap_magic, BlockHeader, Memory, put, set_prev}

-- A block at `addr`: its header of 40 bytes, and `size` bytes.
pub record Block : Type 0 where
  pub addr : ℕ
  pub size : ℕ
  pub used : Bool

abbrev pub limit : Block → ℕ
limit b = b.addr + 40 + b.size

abbrev pub head_of : List Block → Option ℕ
head_of [] = none
head_of (b ∷ bs) = some b.addr

-- The header of a block in its list.
abbrev pub header : Option ℕ → Option ℕ → Block → BlockHeader
header prev next b = record {
  magic = heap_magic;
  size = b.size;
  used = b.used;
  next = next;
  prev = prev;
}

-- The headers in memory link the blocks in both directions; the first one's `prev` is `prev`.
abbrev pub Linked : Memory → Option ℕ → List Block → Type 0
Linked mem prev [] = Unit {0}
Linked mem prev (b ∷ bs) = (mem b.addr ≡ header prev (head_of bs) b) × Linked mem (some b.addr) bs

-- `x` is in none of the blocks.
abbrev pub Outside : ℕ → List Block → Type 0
Outside x [] = Unit {0}
Outside x (b ∷ bs) = ((x < b.addr) ⊎ (limit b ≤ x)) × Outside x bs

-- `b` overlaps none of the blocks.
abbrev pub Clear : Block → List Block → Type 0
Clear b [] = Unit {0}
Clear b (c ∷ cs) = ((limit b ≤ c.addr) ⊎ (limit c ≤ b.addr)) × Clear b cs

-- No two blocks overlap, and all end within the address space.
abbrev pub Apart : List Block → Type 0
Apart [] = Unit {0}
Apart (b ∷ bs) = (limit b < 0x10000000000000000) × Clear b bs × Apart bs

pub Outside-inside :
    (x : ℕ) (b : Block) (bs : List Block) → Clear b bs → b.addr ≤ x → x < limit b → Outside x bs
Outside-inside x b [] c l h = tt
Outside-inside x b (d ∷ bs) c l h = (apart c.0, Outside-inside x b bs c.1 l h)
  where
    apart : ((limit b ≤ d.addr) ⊎ (limit d ≤ b.addr)) → (x < d.addr) ⊎ (limit d ≤ x)
    apart (inl p) = inl (omega arith)
    apart (inr p) = inr (omega arith)

pub put-other : (a x : ℕ) (h : BlockHeader) (mem : Memory) → a ≢ x → put a h mem x ≡ mem x
put-other a x h mem n = ground arith

pub put-same : (a : ℕ) (h : BlockHeader) (mem : Memory) → put a h mem a ≡ h
put-same a h mem = ground arith

-- A write outside the blocks leaves them linked.
pub Linked-put :
    (a : ℕ) (h : BlockHeader) (mem : Memory) (prev : Option ℕ) (bs : List Block)
    → Outside a bs
    → Linked mem prev bs
    → Linked (put a h mem) prev bs
Linked-put a h mem prev [] o l = tt
Linked-put a h mem prev (b ∷ bs) o l =
    (put-other a b.addr h mem (apart o.0) ∙ l.0, Linked-put a h mem (some b.addr) bs o.1 l.1)
  where
    apart : ((a < b.addr) ⊎ (limit b ≤ a)) → a ≢ b.addr
    apart (inl p) e = omega arith
    apart (inr p) e = omega arith

-- The first block is given another one before it.
pub Linked-set_prev :
    (q : Option ℕ) (mem : Memory) (prev : Option ℕ) (bs : List Block)
    → Apart bs
    → Linked mem prev bs
    → Linked (set_prev (head_of bs) q mem) q bs
unfolding set_prev
Linked-set_prev q mem prev [] a l = tt
Linked-set_prev q mem prev (b ∷ bs) a l = (
  put-same b.addr _ mem ∙ ap (λ (h : BlockHeader). record h { prev = q }) l.0,
  Linked-put b.addr _ mem (some b.addr) bs
      (Outside-inside b.addr b bs a.1 (omega arith) (omega arith)) l.1,
)

-- Only a block's header is written.
pub set_prev-other :
    (q : Option ℕ) (mem : Memory) (x : ℕ) (bs : List Block)
    → Outside x bs
    → set_prev (head_of bs) q mem x ≡ mem x
unfolding set_prev
set_prev-other q mem x [] o = refl
set_prev-other q mem x (b ∷ bs) o = put-other b.addr x _ mem (apart o.0)
  where
    apart : ((x < b.addr) ⊎ (limit b ≤ x)) → b.addr ≢ x
    apart (inl p) e = omega arith
    apart (inr p) e = omega arith
