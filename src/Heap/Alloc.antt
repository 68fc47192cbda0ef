-- ===== src/Heap/Alloc.antt =====
-- memory.cpp: malloc, free and the two sums over the blocks, the walks on fuel.
use schwarz_kernel.Prelude.{
  ℕ, zero, suc, ◌+◌, ◌-◌, ◌*◌, ◌/◌, ◌%◌, ◌^◌, Bool, true, false, not, ◌&&◌, Option, none, some,
  ◌==◌, leb, if◌then◌else◌,
}
use schwarz_kernel.Heap.Store.{heap_magic, Memory, put, set_prev, Heap}

-- How a call ends: with a pointer and the memory, by halting the kernel, or without fuel.
pub data Outcome : Type 0 where
  returned : Option ℕ → Memory → Outcome
  halted : Outcome
  exhausted : Outcome

-- Up to a multiple of 8, in 64 bits.
unfoldable pub align_size : ℕ → ℕ
align_size size = (size + 7) % 2 ^ 64 / 8 * 8

-- The block at `a` cut behind `size` bytes, with a free block after it.
unfoldable pub split_block : ℕ → ℕ → Memory → Memory
split_block size a mem =
    let block = mem a in
    let new = (a + 40 + size) % 2 ^ 64 in
    let mem1 =
      put new
        (record {
          magic = heap_magic;
          size = (block.size + 2 ^ 65 - size - 40) % 2 ^ 64;
          used = false;
          next = block.next;
          prev = some a;
        })
        mem in
    let mem2 = set_prev block.next (some new) mem1 in
    put a (record (mem2 a) { next = some new; size = size }) mem2

-- The block is taken, cut first where the rest can hold a header and 16 bytes.
unfoldable pub take_block : ℕ → ℕ → Memory → Memory
take_block size a mem =
    let mem' = if leb ((size + 56) % 2 ^ 64) (mem a).size then split_block size a mem else mem in
    put a (record (mem' a) { used = true }) mem'

-- The loop from `current` on.
unfoldable pub malloc_from : ℕ → ℕ → Option ℕ → Memory → Outcome
malloc_from zero size current mem = exhausted
malloc_from (suc fuel) size none mem = returned none mem
malloc_from (suc fuel) size (some a) mem =
    let rest = malloc_from fuel size (mem a).next mem in
    if not ((mem a).magic == heap_magic)
    then halted
    else if not (mem a).used && leb size (mem a).size
    then returned (some ((a + 40) % 2 ^ 64)) (take_block size a mem)
    else rest

unfoldable pub malloc : ℕ → ℕ → Heap → Outcome
malloc fuel size h =
    if size == 0
    then returned none h.memory
    else malloc_from fuel (align_size size) h.heap_head h.memory

-- The block takes in the one after it.
unfoldable pub join_next : ℕ → ℕ → Memory → Memory
join_next a n mem = set_prev (mem n).next (some a) (
    put a
      (record (mem a) { size = ((mem a).size + 40 + (mem n).size) % 2 ^ 64; next = (mem n).next })
      mem)

unfoldable pub merge_next : ℕ → Memory → Memory
merge_next a mem = elim (mem a).next [
  | none ↦ mem
  | some n ↦ if (mem n).used then mem else join_next a n mem
]

-- The block is taken in by the one before it. Its own header stays as it is.
unfoldable pub merge_prev : ℕ → Memory → Memory
merge_prev a mem = elim (mem a).prev [
  | none ↦ mem
  | some p ↦ if (mem p).used then mem else join_next p a mem
]

unfoldable pub free : Option ℕ → Memory → Outcome
free none mem = returned none mem
free (some ptr) mem =
    let a = (ptr + 2 ^ 64 - 40) % 2 ^ 64 in
    if not ((mem a).magic == heap_magic)
    then halted
    else returned none (merge_prev a (merge_next a (put a (record (mem a) { used = false }) mem)))

-- The sum of the sizes of the blocks from `current` on whose `used` is `used`; `none` without fuel.
unfoldable pub sum_from : Bool → ℕ → Option ℕ → Memory → Option ℕ
sum_from used zero current mem = none
sum_from used (suc fuel) none mem = some 0
sum_from used (suc fuel) (some a) mem = elim (sum_from used fuel (mem a).next mem) [
  | none ↦ none
  | some total ↦ some (
      if (if used then (mem a).used else not (mem a).used) && (mem a).magic == heap_magic
      then ((mem a).size + total) % 2 ^ 64
      else total)
]

unfoldable pub memory_free_bytes : ℕ → Heap → Option ℕ
memory_free_bytes fuel h = sum_from false fuel h.heap_head h.memory

unfoldable pub memory_used_bytes : ℕ → Heap → Option ℕ
memory_used_bytes fuel h = sum_from true fuel h.heap_head h.memory
