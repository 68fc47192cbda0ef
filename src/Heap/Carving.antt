-- ===== src/Heap/Carving.antt =====
-- What take_block does to the block it is given and to those behind it.
use schwarz_kernel.Prelude.{
  ℕ, ◌+◌, ◌-◌, ◌%◌, ◌^◌, ◌≤◌, ◌<◌, ◌≡◌, ◌≢◌, ◌⊎◌, refl, ap, ◌∙◌, inl, inr, true, false, Option,
  some, List, [], ◌∷◌, ◌++◌, leb, if◌then◌else◌, arith, Bool-cases,
}
use schwarz_kernel.Heap.Store.{BlockHeader, Memory, put, set_prev}
use schwarz_kernel.Heap.Alloc.{split_block, take_block}
use schwarz_kernel.Heap.Blocks.{
  Block, limit, head_of, header, Linked, Outside, Apart, Outside-inside, put-same, put-other,
  Linked-put, Linked-set_prev, set_prev-other,
}

-- The free block behind the first `size` bytes of `b`.
abbrev pub remainder : ℕ → Block → Block
remainder size b = record { addr = b.addr + 40 + size; size = b.size - size - 40; used = false }

-- What a block becomes when `size` bytes of it are taken.
abbrev pub carve : ℕ → Block → List Block
carve size b =
    if leb (size + 56) b.size
    then record b { size = size; used = true } ∷ remainder size b ∷ []
    else record b { used = true } ∷ []

-- After the cut.
record Cut (size : ℕ) (mem mem' : Memory) (prev : Option ℕ) (b : Block) (bs : List Block)
    : Type 0 where
  linked : Linked mem' prev (record b { size = size } ∷ remainder size b ∷ bs)
  frame : (x : ℕ) → Outside x (b ∷ bs) → mem' x ≡ mem x

split_block-Cut :
    (size : ℕ) (mem : Memory) (prev : Option ℕ) (b : Block) (bs : List Block)
    → Linked mem prev (b ∷ bs)
    → Apart (b ∷ bs)
    → size + 56 ≤ b.size
    → Cut size mem (split_block size b.addr mem) prev b bs
unfolding split_block
split_block-Cut size mem prev b bs l a h =
    rw (l.0, no_wrap, no_borrow)
      (record {
        linked = (
          put-same b.addr _ mem2
              ∙ ap (λ (k : BlockHeader). record k { next = some new; size = size }) at_b,
          (
            put-other b.addr new _ mem2 (λ e. omega arith) ∙ at_new,
            Linked-put b.addr _ mem2 (some new) bs outside_b rest,
          ),
        );
        frame = frame;
      })
  where
    new : ℕ
    new = b.addr + 40 + size

    no_wrap : (b.addr + 40 + size) % 2 ^ 64 ≡ b.addr + 40 + size
    no_wrap = omega (arith, a.0)

    mem1 : Memory
    mem1 = put new (header (some b.addr) (head_of bs) (remainder size b)) mem

    no_borrow :
        ((header prev (head_of bs) b).size + 2 ^ 65 - size - 40) % 2 ^ 64 ≡ b.size - size - 40
    no_borrow = omega arith

    mem2 : Memory
    mem2 = set_prev (head_of bs) (some new) mem1

    outside_b : Outside b.addr bs
    outside_b = Outside-inside b.addr b bs a.1 (omega arith) (omega arith)

    outside_new : Outside new bs
    outside_new = Outside-inside new b bs a.1 (omega arith) (omega arith)

    at_b : mem2 b.addr ≡ header prev (head_of bs) b
    at_b =
        set_prev-other (some new) mem1 b.addr bs outside_b
        ∙ put-other new b.addr (header (some b.addr) (head_of bs) (remainder size b)) mem
            (λ e. omega arith)
        ∙ l.0

    at_new : mem2 new ≡ header (some b.addr) (head_of bs) (remainder size b)
    at_new = set_prev-other (some new) mem1 new bs outside_new ∙ put-same new _ mem

    rest : Linked mem2 (some new) bs
    rest =
        Linked-set_prev (some new) mem1 (some b.addr) bs a.2
          (Linked-put new _ mem (some b.addr) bs outside_new l.1)

    frame :
        (x : ℕ)
        → Outside x (b ∷ bs)
        → put b.addr (record (mem2 b.addr) { next = some new; size = size }) mem2 x ≡ mem x
    frame x o =
        put-other b.addr x _ mem2 (at_start o.0)
        ∙ set_prev-other (some new) mem1 x bs o.1
        ∙ put-other new x _ mem (at_cut o.0)
      where
        at_start : ((x < b.addr) ⊎ (limit b ≤ x)) → b.addr ≢ x
        at_start (inl p) e = omega arith
        at_start (inr p) e = omega arith

        at_cut : ((x < b.addr) ⊎ (limit b ≤ x)) → b.addr + 40 + size ≢ x
        at_cut (inl p) e = omega arith
        at_cut (inr p) e = omega arith

-- The blocks from `prev` on become others, and nothing is written outside them.
pub record Becomes (mem mem' : Memory) (prev : Option ℕ) (bs bs' : List Block) : Type 0 where
  pub linked : Linked mem' prev bs'
  pub frame : (x : ℕ) → Outside x bs → mem' x ≡ mem x
  pub same_head : head_of bs' ≡ head_of bs

-- The first block is marked as used.
mark-Becomes :
    (mem mem' : Memory) (prev : Option ℕ) (b c : Block) (bs bs' : List Block)
    → Linked mem' prev (c ∷ bs')
    → c.addr ≡ b.addr
    → Outside b.addr bs'
    → ((x : ℕ) → Outside x (b ∷ bs) → mem' x ≡ mem x)
    → Becomes mem
        (put b.addr (record (mem' b.addr) { used = true }) mem')
        prev
        (b ∷ bs)
        (record c { used = true } ∷ bs')
mark-Becomes mem mem' prev b c bs bs' l e o f =
    let l0 = rw e at l.0 in
    record {
      linked = (
        rw e (put-same b.addr _ mem' ∙ ap (λ (k : BlockHeader). record k { used = true }) l0),
        Linked-put b.addr _ mem' (some c.addr) bs' o l.1,
      );
      frame = λ x q. put-other b.addr x _ mem' (at_start x q.0) ∙ f x q;
      same_head = ap some e;
    }
  where
    at_start : (x : ℕ) → ((x < b.addr) ⊎ (limit b ≤ x)) → b.addr ≢ x
    at_start x (inl p) e' = omega arith
    at_start x (inr p) e' = omega arith

-- `take_block` on the first block.
pub take_block-Becomes :
    (size : ℕ) (mem : Memory) (prev : Option ℕ) (b : Block) (bs : List Block)
    → Linked mem prev (b ∷ bs)
    → Apart (b ∷ bs)
    → size + 56 < 2 ^ 64
    → Becomes mem (take_block size b.addr mem) prev (b ∷ bs) (carve size b ++ bs)
unfolding take_block
take_block-Becomes size mem prev b bs l a h =
    let w : (size + 56) % 2 ^ 64 ≡ size + 56 = omega arith in
    elim (Bool-cases (leb (size + 56) b.size)) [
      | inl big ↦
          let cut = split_block-Cut size mem prev b bs l a (ground arith) in
          rw (w, ap (λ (k : BlockHeader). k.size) l.0, big, take_block)
            (mark-Becomes mem (split_block size b.addr mem) prev b (record b { size = size }) bs
              (remainder size b ∷ bs) cut.linked refl
              (inl (omega arith), Outside-inside b.addr b bs a.1 (omega arith) (omega arith))
              cut.frame)
      | inr small ↦
          rw (w, ap (λ (k : BlockHeader). k.size) l.0, small, take_block)
            (mark-Becomes mem mem prev b b bs bs l refl
              (Outside-inside b.addr b bs a.1 (omega arith) (omega arith)) (λ x q. refl))
    ]
