-- ===== src/Heap/Release.antt =====
-- What the parts of free do to the blocks.
use schwarz_kernel.Prelude.{
  ℕ, ◌+◌, ◌%◌, ◌^◌, ◌≤◌, ◌<◌, ◌≡◌, ◌≢◌, ◌⊎◌, refl, sym, ap, ◌∙◌, inl, inr, Bool, true, false,
  Option, some, List, [], ◌∷◌, if◌then◌else◌, arith,
}
use schwarz_kernel.Heap.Store.{BlockHeader, Memory, put}
use schwarz_kernel.Heap.Alloc.{join_next, merge_next, merge_prev}
use schwarz_kernel.Heap.Blocks.{
  Block, limit, head_of, header, Linked, Outside, Clear, Apart, Outside-inside, put-same, put-other,
  Linked-put, Linked-set_prev, set_prev-other,
}
use schwarz_kernel.Heap.Carving.{Becomes}

-- Two blocks as one, with the second one's header as bytes of it.
abbrev pub joined : Block → Block → Block
joined b c = record b { size = b.size + 40 + c.size }

-- `c` stands right behind `b`.
abbrev pub Adjacent : Block → List Block → Type 0
Adjacent b [] = Unit {0}
Adjacent b (c ∷ cs) = limit b ≡ c.addr

-- `join_next` on the first two blocks.
join_next-Becomes :
    (mem : Memory) (prev : Option ℕ) (b c : Block) (bs : List Block)
    → Linked mem prev (b ∷ c ∷ bs)
    → Apart (b ∷ c ∷ bs)
    → limit b ≡ c.addr
    → Becomes mem (join_next b.addr c.addr mem) prev (b ∷ c ∷ bs) (joined b c ∷ bs)
unfolding join_next
join_next-Becomes mem prev b c bs l a h =
    rw (l.0, l.1.0, no_wrap)
      (record {
        linked = (
          set_prev-other (some b.addr) mem1 b.addr bs outside_b ∙ put-same b.addr _ mem,
          Linked-set_prev (some b.addr) mem1 (some c.addr) bs a.2.2
              (Linked-put b.addr _ mem (some c.addr) bs outside_b l.1.1),
        );
        frame = λ x o.
            set_prev-other (some b.addr) mem1 x bs o.1.1
            ∙ put-other b.addr x _ mem (at_start x o.0);
        same_head = refl;
      })
  where
    no_wrap : (b.size + 40 + c.size) % 2 ^ 64 ≡ b.size + 40 + c.size
    no_wrap = omega (arith, a.2.0)

    mem1 : Memory
    mem1 = put b.addr (header prev (head_of bs) (joined b c)) mem

    outside_b : Outside b.addr bs
    outside_b = Outside-inside b.addr b bs a.1.1 (omega arith) (omega arith)

    at_start : (x : ℕ) → ((x < b.addr) ⊎ (limit b ≤ x)) → b.addr ≢ x
    at_start x (inl p) e = omega arith
    at_start x (inr p) e = omega arith

-- A block with the free block behind it.
abbrev pub absorb : Block → List Block → List Block
absorb b [] = b ∷ []
absorb b (c ∷ cs) = if c.used then b ∷ c ∷ cs else joined b c ∷ cs

pub merge_next-Becomes :
    (mem : Memory) (prev : Option ℕ) (b : Block) (bs : List Block)
    → Linked mem prev (b ∷ bs)
    → Apart (b ∷ bs)
    → Adjacent b bs
    → Becomes mem (merge_next b.addr mem) prev (b ∷ bs) (absorb b bs)
unfolding merge_next
merge_next-Becomes mem prev b [] l a h =
    rw (merge_next, l.0) (record { linked = l; frame = λ x o. refl; same_head = refl })
merge_next-Becomes mem prev b (c ∷ cs) l a h = rw (merge_next, l.0, l.1.0) (go c.used)
  where
    go :
        (u : Bool)
        → Becomes mem
            (if u then mem else join_next b.addr c.addr mem)
            prev
            (b ∷ c ∷ cs)
            (if u then b ∷ c ∷ cs else joined b c ∷ cs)
    go true = record { linked = l; frame = λ x o. refl; same_head = refl }
    go false = join_next-Becomes mem prev b c cs l a h

pub merge_prev-Becomes :
    (mem : Memory) (prev : Option ℕ) (p b : Block) (bs : List Block)
    → Linked mem prev (p ∷ b ∷ bs)
    → Apart (p ∷ b ∷ bs)
    → limit p ≡ b.addr
    → Becomes mem
        (merge_prev b.addr mem)
        prev
        (p ∷ b ∷ bs)
        (if p.used then p ∷ b ∷ bs else joined p b ∷ bs)
unfolding merge_prev
merge_prev-Becomes mem prev p b bs l a h = rw (merge_prev, l.1.0, l.0) (go p.used)
  where
    go :
        (u : Bool)
        → Becomes mem
            (if u then mem else join_next p.addr b.addr mem)
            prev
            (p ∷ b ∷ bs)
            (if u then p ∷ b ∷ bs else joined p b ∷ bs)
    go true = record { linked = l; frame = λ x o. refl; same_head = refl }
    go false = join_next-Becomes mem prev p b bs l a h

-- A change behind a block.
pub Becomes-cons :
    (mem mem' : Memory) (prev : Option ℕ) (q : Block) (bs bs' : List Block)
    → Linked mem prev (q ∷ bs)
    → Clear q bs
    → Becomes mem mem' (some q.addr) bs bs'
    → Becomes mem mem' prev (q ∷ bs) (q ∷ bs')
Becomes-cons mem mem' prev q bs bs' l c w = record {
  linked = (
    w.frame q.addr (Outside-inside q.addr q bs c (omega arith) (omega arith))
        ∙ l.0
        ∙ ap (λ n. header prev n q) (sym w.same_head),
    w.linked,
  );
  frame = λ x o. w.frame x o.1;
  same_head = refl;
}

-- `used = 0` on the first block.
pub unmark-Becomes :
    (mem : Memory) (prev : Option ℕ) (b : Block) (bs : List Block)
    → Linked mem prev (b ∷ bs)
    → Clear b bs
    → Becomes mem
        (put b.addr (record (mem b.addr) { used = false }) mem)
        prev
        (b ∷ bs)
        (record b { used = false } ∷ bs)
unmark-Becomes mem prev b bs l c = record {
  linked = (
    put-same b.addr _ mem ∙ ap (λ (k : BlockHeader). record k { used = false }) l.0,
    Linked-put b.addr _ mem (some b.addr) bs
        (Outside-inside b.addr b bs c (omega arith) (omega arith)) l.1,
  );
  frame = λ x o. put-other b.addr x _ mem (at_start x o.0);
  same_head = refl;
}
  where
    at_start : (x : ℕ) → ((x < b.addr) ⊎ (limit b ≤ x)) → b.addr ≢ x
    at_start x (inl p) e = omega arith
    at_start x (inr p) e = omega arith
