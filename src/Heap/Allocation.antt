-- ===== src/Heap/Allocation.antt =====
-- malloc on the list of blocks.
use schwarz_kernel.Prelude.{
  ℕ, zero, suc, ◌+◌, ◌%◌, ◌^◌, ◌≤◌, ◌<◌, ◌≡◌, ◌⊎◌, refl, sym, ap, ◌∙◌, inl, inr, Bool, true, false,
  not, ◌&&◌, Option, none, some, List, [], ◌∷◌, ◌++◌, ◌==◌, leb, if◌then◌else◌, length, arith,
  Bool-cases,
}
use schwarz_kernel.Heap.Store.{Memory, Heap}
use schwarz_kernel.Heap.Alloc.{Outcome, returned, align_size, take_block, malloc_from, malloc}
use schwarz_kernel.Heap.Blocks.{Block, limit, head_of, header, Linked, Clear, Apart, Outside-inside}
use schwarz_kernel.Heap.Carving.{remainder, carve, Becomes, take_block-Becomes}

-- The first free block that is large enough is carved.
abbrev pub fits : ℕ → Block → Bool
fits size b = not b.used && leb size b.size

abbrev pub place : ℕ → List Block → List Block
place size [] = []
place size (b ∷ bs) = if fits size b then carve size b ++ bs else b ∷ place size bs

abbrev pub placed_at : ℕ → List Block → Option ℕ
placed_at size [] = none
placed_at size (b ∷ bs) = if fits size b then some (b.addr + 40) else placed_at size bs

-- A walk that returns a pointer with a memory in which the blocks are others.
record Returns (out : Outcome) (ptr : Option ℕ) (mem : Memory) (prev : Option ℕ)
    (bs bs' : List Block) : Type 0 where
  memory : Memory
  result : out ≡ returned ptr memory
  becomes : Becomes mem memory prev bs bs'

malloc_from-Returns :
    (fuel size : ℕ) (mem : Memory) (prev : Option ℕ) (bs : List Block)
    → length bs < fuel
    → Linked mem prev bs
    → Apart bs
    → size + 56 < 2 ^ 64
    → Returns
        (malloc_from fuel size (head_of bs) mem)
        (placed_at size bs)
        mem
        prev
        bs
        (place size bs)
unfolding malloc_from
malloc_from-Returns zero size mem prev bs f l a h = absurd (omega arith)
malloc_from-Returns (suc fuel) size mem prev [] f l a h = record {
  memory = mem;
  result = refl;
  becomes = record { linked = tt; frame = λ x o. refl; same_head = refl };
}
malloc_from-Returns (suc fuel) size mem prev (b ∷ bs) f l a h = elim (Bool-cases (fits size b)) [
  | inl yes' ↦
      let no_wrap : (b.addr + 40) % 2 ^ 64 ≡ b.addr + 40 = omega (arith, a.0) in
      record {
        memory = take_block size b.addr mem;
        result = rw (l.0, yes', no_wrap, malloc_from) refl;
        becomes = rw yes' (take_block-Becomes size mem prev b bs l a h);
      }
  | inr no' ↦
      let r = malloc_from-Returns fuel size mem (some b.addr) bs (omega arith) l.1 a.2 h in
      record {
        memory = r.memory;
        result = rw (l.0, no', malloc_from) r.result;
        becomes = rw no' (record {
          linked = (
            r.becomes.frame b.addr (Outside-inside b.addr b bs a.1 (omega arith) (omega arith))
                ∙ l.0
                ∙ ap (λ n. header prev n b) (sym r.becomes.same_head),
            r.becomes.linked,
          );
          frame = λ x o. r.becomes.frame x o.1;
          same_head = refl;
        });
      }
]

-- The heap holds these blocks, which do not overlap.
pub record HeapHolds (h : Heap) (bs : List Block) : Type 0 where
  pub head : h.heap_head ≡ head_of bs
  pub linked : Linked h.memory none bs
  pub apart : Apart bs

-- All bytes of the blocks, headers included.
abbrev pub total : List Block → ℕ
total [] = 0
total (b ∷ bs) = 40 + b.size + total bs

-- A part of a block is clear of what the block is clear of.
Clear-part :
    (b c : Block) (bs : List Block) → Clear b bs → b.addr ≤ c.addr → limit c ≤ limit b → Clear c bs
Clear-part b c [] p l h = tt
Clear-part b c (d ∷ bs) p l h = (ground arith, Clear-part b c bs p.1 l h)

Clear-carve :
    (size : ℕ) (d b : Block) (bs : List Block)
    → (limit d ≤ b.addr) ⊎ (limit b ≤ d.addr)
    → size ≤ b.size
    → Clear d bs
    → Clear d (carve size b ++ bs)
Clear-carve size d b bs p h c = elim (Bool-cases (leb (size + 56) b.size)) [
  | inl big ↦ rw big (ground arith, (ground arith, c))
  | inr small ↦ rw small (p, c)
]

Clear-place : (size : ℕ) (d : Block) (bs : List Block) → Clear d bs → Clear d (place size bs)
Clear-place size d [] c = tt
Clear-place size d (b ∷ bs) c = elim (Bool-cases (fits size b)) [
  | inl yes' ↦ rw yes' (Clear-carve size d b bs c.0 (ground arith) c.1)
  | inr no' ↦ rw no' (c.0, Clear-place size d bs c.1)
]

Apart-carve :
    (size : ℕ) (b : Block) (bs : List Block)
    → size ≤ b.size
    → Apart (b ∷ bs)
    → Apart (carve size b ++ bs)
Apart-carve size b bs h a = elim (Bool-cases (leb (size + 56) b.size)) [
  | inl big ↦
      let whole : size + 56 ≤ b.size = ground arith in
      rw big (
        omega (arith, a.0),
        (
          inl (omega arith),
          Clear-part b (record b { size = size; used = true }) bs a.1 (omega arith) (omega arith),
        ),
        (
          omega (arith, a.0),
          Clear-part b (remainder size b) bs a.1 (omega arith) (omega arith),
          a.2,
        ),
      )
  | inr small ↦ rw small (a.0, a.1, a.2)
]

Apart-place : (size : ℕ) (bs : List Block) → Apart bs → Apart (place size bs)
Apart-place size [] a = tt
Apart-place size (b ∷ bs) a = elim (Bool-cases (fits size b)) [
  | inl yes' ↦ rw yes' (Apart-carve size b bs (ground arith) a)
  | inr no' ↦ rw no' (a.0, Clear-place size b bs a.1, Apart-place size bs a.2)
]

total-place : (size : ℕ) (bs : List Block) → total (place size bs) ≡ total bs
total-place size [] = refl
total-place size (b ∷ bs) = ground (arith, total-place size bs)

place-head : (size : ℕ) (bs : List Block) → head_of (place size bs) ≡ head_of bs
place-head size [] = refl
place-head size (b ∷ bs) = ground arith

-- In a heap whose blocks do not overlap, and with more fuel than there are blocks, `malloc` of a size
-- above 0 and below 2 ^ 64 - 63 returns: the pointer into the first free block that is large enough
-- for the size rounded up to 8, or null where there is none. That block is cut where 16 bytes and a header are left over, the blocks are
-- linked in both directions and do not overlap as before, and together they have as many bytes.
pub malloc_refines :
    (fuel size : ℕ) (h : Heap) (bs : List Block)
    → HeapHolds h bs
    → length bs < fuel
    → 0 < size
    → size + 63 < 2 ^ 64
    → (mem : Memory) × (malloc fuel size h ≡ returned (placed_at (align_size size) bs) mem)
      × HeapHolds (record h { memory = mem }) (place (align_size size) bs)
      × (total (place (align_size size) bs) ≡ total bs)
unfolding malloc align_size
malloc_refines fuel size h bs v f pos small =
    let n = align_size size in
    let r = malloc_from-Returns fuel n h.memory none bs f v.linked v.apart (omega arith) in
    let z : (size == 0) ≡ false = ground arith in
    (
      r.memory,
      rw (z, v.head) r.result,
      record {
        head = v.head ∙ sym (place-head n bs);
        linked = r.becomes.linked;
        apart = Apart-place n bs v.apart;
      },
      total-place n bs,
    )
