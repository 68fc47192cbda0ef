-- ===== src/Heap/Freeing.antt =====
-- free on the list of blocks.
use schwarz_kernel.Prelude.{
  ℕ, ◌+◌, ◌-◌, ◌%◌, ◌^◌, ◌<◌, ◌≡◌, refl, sym, ap, ◌∙◌, Bool, true, false, Option, none, some, List,
  [], ◌∷◌, ◌++◌, if◌then◌else◌, arith,
}
use schwarz_kernel.Heap.Store.{heap_magic, BlockHeader, Memory, put, Heap}
use schwarz_kernel.Heap.Alloc.{merge_next, merge_prev, free, returned}
use schwarz_kernel.Heap.Blocks.{Block, limit, Linked, Outside, Apart}
use schwarz_kernel.Heap.Carving.{Becomes}
use schwarz_kernel.Heap.Allocation.{HeapHolds}
use schwarz_kernel.Heap.Release.{
  joined, Adjacent, absorb, merge_next-Becomes, merge_prev-Becomes, Becomes-cons, unmark-Becomes,
}
use schwarz_kernel.Heap.Merging.{
  with_prev, given_back, Clear-absorb, Apart-absorb, Outside-absorb, Apart-behind,
}

merge_prev-absorb :
    (mem : Memory) (prev : Option ℕ) (p b : Block) (bs : List Block)
    → Linked mem prev (p ∷ absorb b bs)
    → Apart (p ∷ absorb b bs)
    → limit p ≡ b.addr
    → Becomes mem (merge_prev b.addr mem) prev (p ∷ absorb b bs) (with_prev p (absorb b bs))
merge_prev-absorb mem prev p b [] l a h = merge_prev-Becomes mem prev p b [] l a h
merge_prev-absorb mem prev p b (c ∷ cs) l a h = go c.used l a
  where
    go :
        (u : Bool)
        → Linked mem prev (p ∷ (if u then b ∷ c ∷ cs else joined b c ∷ cs))
        → Apart (p ∷ (if u then b ∷ c ∷ cs else joined b c ∷ cs))
        → Becomes mem
            (merge_prev b.addr mem)
            prev
            (p ∷ (if u then b ∷ c ∷ cs else joined b c ∷ cs))
            (with_prev p (if u then b ∷ c ∷ cs else joined b c ∷ cs))
    go true l' a' = merge_prev-Becomes mem prev p b (c ∷ cs) l' a' h
    go false l' a' = merge_prev-Becomes mem prev p (joined b c) cs l' a' h

Becomes-trans :
    {mem mem' mem'' : Memory} {prev : Option ℕ} {bs bs' bs'' : List Block}
    → Becomes mem mem' prev bs bs'
    → Becomes mem' mem'' prev bs' bs''
    → ((x : ℕ) → Outside x bs → Outside x bs')
    → Becomes mem mem'' prev bs bs''
Becomes-trans v w f = record {
  linked = w.linked;
  frame = λ x o. w.frame x (f x o) ∙ v.frame x o;
  same_head = w.same_head ∙ v.same_head;
}

-- The memory after the block at `a` is given back.
abbrev freed : ℕ → Memory → Memory
freed a mem = merge_prev a (merge_next a (put a (record (mem a) { used = false }) mem))

freed-Becomes :
    (mem : Memory) (prev : Option ℕ) (p b : Block) (bs : List Block)
    → Linked mem prev (p ∷ b ∷ bs)
    → Apart (p ∷ b ∷ bs)
    → limit p ≡ b.addr
    → Adjacent b bs
    → Becomes mem (freed b.addr mem) prev (p ∷ b ∷ bs) (with_prev p (absorb (given_back b) bs))
freed-Becomes mem prev p b bs l a h n =
    let c = given_back b in
    let mem1 : Memory = put b.addr (record (mem b.addr) { used = false }) mem in
    let mem2 : Memory = merge_next b.addr mem1 in
    let w1 =
      Becomes-cons mem mem1 prev p (b ∷ bs) (c ∷ bs) l a.1
        (unmark-Becomes mem (some p.addr) b bs l.1 a.2.1) in
    let w2 =
      Becomes-cons mem1 mem2 prev p (c ∷ bs) (absorb c bs) w1.linked a.1
        (merge_next-Becomes mem1 (some p.addr) c bs w1.linked.1 a.2 n) in
    let w3 =
      merge_prev-absorb mem2 prev p c bs w2.linked
        (a.0, Clear-absorb p c bs n a.1, Apart-absorb c bs n a.2) h in
    Becomes-trans (Becomes-trans w1 w2 (λ x o. o)) w3 (λ x o. (o.0, Outside-absorb x c bs n o.1))

freed-from :
    (mem : Memory) (prev : Option ℕ) (ps : List Block) (p b : Block) (bs : List Block)
    → Linked mem prev (ps ++ p ∷ b ∷ bs)
    → Apart (ps ++ p ∷ b ∷ bs)
    → limit p ≡ b.addr
    → Adjacent b bs
    → Becomes mem
        (freed b.addr mem)
        prev
        (ps ++ p ∷ b ∷ bs)
        (ps ++ with_prev p (absorb (given_back b) bs))
freed-from mem prev [] p b bs l a h n = freed-Becomes mem prev p b bs l a h n
freed-from mem prev (q ∷ ps) p b bs l a h n =
    Becomes-cons mem (freed b.addr mem) prev q (ps ++ p ∷ b ∷ bs)
      (ps ++ with_prev p (absorb (given_back b) bs)) l a.1
      (freed-from mem (some q.addr) ps p b bs l.1 a.2 h n)

header_at :
    (mem : Memory) (prev : Option ℕ) (ps : List Block) (p b : Block) (bs : List Block)
    → Linked mem prev (ps ++ p ∷ b ∷ bs)
    → Apart (ps ++ p ∷ b ∷ bs)
    → ((mem b.addr).magic ≡ heap_magic) × (limit b < 2 ^ 64)
header_at mem prev [] p b bs l a = (ap (λ (k : BlockHeader). k.magic) l.1.0, a.2.0)
header_at mem prev (q ∷ ps) p b bs l a = header_at mem (some q.addr) ps p b bs l.1 a.2

-- In a heap whose blocks do not overlap, `free` of the pointer into a block that stands in memory right
-- behind the block before it in the list, and right before the one after it, if any, returns. The
-- block is free then, the one after it belongs to it if that was free, and all of it belongs to the
-- one before it if that is free; no other block changes, and the blocks do not overlap as before.
pub free_refines :
    (h : Heap) (ps : List Block) (p b : Block) (bs : List Block)
    → HeapHolds h (ps ++ p ∷ b ∷ bs)
    → limit p ≡ b.addr
    → Adjacent b bs
    → (mem : Memory) × (free (some (b.addr + 40)) h.memory ≡ returned none mem)
      × HeapHolds (record h { memory = mem }) (ps ++ with_prev p (absorb (given_back b) bs))
unfolding free
free_refines h ps p b bs v e n =
    let w = header_at h.memory none ps p b bs v.linked v.apart in
    let at : (b.addr + 40 + 2 ^ 64 - 40) % 2 ^ 64 ≡ b.addr = omega (arith, w.1) in
    let f = freed-from h.memory none ps p b bs v.linked v.apart e n in
    (
      freed b.addr h.memory,
      rw (at, w.0) refl,
      record {
        head = v.head ∙ sym f.same_head;
        linked = f.linked;
        apart = Apart-behind ps p b bs e n v.apart;
      },
    )
