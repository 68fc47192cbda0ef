-- ===== src/Heap/Tests.antt =====
-- A heap of two regions, and the theorems at concrete inputs.
use schwarz_kernel.Prelude.{
  ℕ, ◌+◌, ◌-◌, ◌==◌, if◌then◌else◌, ◌≤◌, ◌%◌, ◌^◌, ◌≡◌, ◌⊎◌, refl, inl, true, false, Option, none,
  some, List, [], ◌∷◌, arith,
}
use schwarz_kernel.Heap.Store.{
  Memory, set_prev, Heap, MemoryRegion, above_2mb, link_block, add_region, add_regions, memory_init,
}
use schwarz_kernel.Heap.Alloc.{
  Outcome, returned, align_size, split_block, take_block, malloc_from, malloc, join_next,
  merge_next, merge_prev, free, sum_from, memory_free_bytes, memory_used_bytes,
}
use schwarz_kernel.Heap.Blocks.{Block, header}
use schwarz_kernel.Heap.Allocation.{HeapHolds, placed_at, place, total, malloc_refines}
use schwarz_kernel.Heap.Exclusion.{malloc-Excludes}
use schwarz_kernel.Heap.Freeing.{free_refines}
use schwarz_kernel.Heap.Sums.{bytes_of, memory_bytes_lem}

abbrev no_memory : Memory
no_memory a = record { magic = 0; size = 0; used = false; next = none; prev = none }

-- 4096 usable bytes, a reserved region, and 1000 usable bytes.
abbrev regions : List MemoryRegion
regions =
    record { base = 0x200000; length = 4096; usable = true }
    ∷ record { base = 0x300000; length = 4096; usable = false }
    ∷ record { base = 0x400000; length = 1000; usable = true }
    ∷ []

abbrev free_bytes_of : Option Heap → Option ℕ
free_bytes_of none = none
free_bytes_of (some h) = memory_free_bytes 3 h

init_bytes : free_bytes_of (memory_init regions no_memory) ≡ some (4056 + 960)
unfolding memory_init add_regions above_2mb add_region link_block memory_free_bytes sum_from
init_bytes = refl

-- A block in use before a free one.
abbrev blocks : List Block
blocks =
    record { addr = 0x200000; size = 16; used = true }
    ∷ record { addr = 0x200038; size = 4000; used = false }
    ∷ []

abbrev heap : Heap
heap = record {
  memory = λ a.
      if a == 0x200000
      then header none (some 0x200038) (record { addr = 0x200000; size = 16; used = true })
      else header (some 0x200000) none (record { addr = 0x200038; size = 4000; used = false });
  heap_head = some 0x200000;
  heap_start_addr = 0x200000;
  heap_end_addr = 0x201000;
}

heap-Holds : HeapHolds heap blocks
heap-Holds = record {
  head = refl;
  linked = (refl, (refl, tt));
  apart = (omega arith, (inl (omega arith), tt), (omega arith, tt, tt));
}

-- What is taken and given back is one free block again.
abbrev bytes_after : Outcome → Option ℕ
bytes_after (returned p mem) = memory_free_bytes 4 (record heap { memory = mem })
bytes_after _ = none

abbrev then_free : Outcome → Outcome
then_free (returned p mem) = free p mem
then_free o = o

malloc_bytes : bytes_after (malloc 3 100 heap) ≡ some (4000 - 144)
unfolding malloc malloc_from align_size take_block split_block set_prev memory_free_bytes sum_from
malloc_bytes = refl

free_bytes : bytes_after (then_free (malloc 3 100 heap)) ≡ some 4000
unfolding malloc malloc_from align_size take_block split_block set_prev memory_free_bytes sum_from
    free merge_prev merge_next join_next
free_bytes = refl

malloc_refines_example :
    (mem : Memory) × (malloc 3 100 heap ≡ returned (placed_at (align_size 100) blocks) mem)
    × HeapHolds (record heap { memory = mem }) (place (align_size 100) blocks)
    × (total (place (align_size 100) blocks) ≡ total blocks)
malloc_refines_example =
    malloc_refines 3 100 heap blocks heap-Holds (omega arith) (omega arith) (omega arith)

abbrev memory_after : Outcome → Memory
memory_after (returned p mem) = mem
memory_after _ = no_memory

malloc_returns : malloc 3 100 heap ≡ returned (some 0x200060) (memory_after (malloc 3 100 heap))
unfolding malloc malloc_from align_size
malloc_returns = refl

malloc-Excludes_example : (0x200038 ≤ 0x200060) ⊎ (0x200060 + 100 ≤ 0x200000)
malloc-Excludes_example =
    malloc-Excludes 3 100 heap blocks 0 heap-Holds (omega arith) (omega arith) (omega arith)
      malloc_returns refl refl

memory_bytes_lem_example :
    (memory_free_bytes 3 heap ≡ some (bytes_of false blocks % 2 ^ 64))
    × (memory_used_bytes 3 heap ≡ some (bytes_of true blocks % 2 ^ 64))
memory_bytes_lem_example = memory_bytes_lem 3 heap blocks heap-Holds (omega arith)

-- The first of three blocks is free, the second one in use, the third one free.
abbrev row : List Block
row =
    record { addr = 0x1000; size = 16; used = false }
    ∷ record { addr = 0x1038; size = 24; used = true }
    ∷ record { addr = 0x1078; size = 32; used = false }
    ∷ []

abbrev row_heap : Heap
row_heap = record heap {
  memory = λ a.
      if a == 0x1000
      then header none (some 0x1038) (record { addr = 0x1000; size = 16; used = false })
      else if a == 0x1038
      then header (some 0x1000) (some 0x1078) (record { addr = 0x1038; size = 24; used = true })
      else header (some 0x1038) none (record { addr = 0x1078; size = 32; used = false });
  heap_head = some 0x1000;
}

row_heap-Holds : HeapHolds row_heap row
row_heap-Holds = record {
  head = refl;
  linked = (refl, (refl, (refl, tt)));
  apart = (
    omega arith,
    (inl (omega arith), (inl (omega arith), tt)),
    (omega arith, (inl (omega arith), tt), (omega arith, tt, tt)),
  );
}

-- All three are one block then.
free_refines_example :
    (mem : Memory) × (free (some 0x1060) row_heap.memory ≡ returned none mem)
    × HeapHolds
        (record row_heap { memory = mem })
        (record { addr = 0x1000; size = 152; used = false } ∷ [])
free_refines_example =
    free_refines row_heap [] (record { addr = 0x1000; size = 16; used = false })
      (record { addr = 0x1038; size = 24; used = true })
      (record { addr = 0x1078; size = 32; used = false } ∷ []) row_heap-Holds refl refl
