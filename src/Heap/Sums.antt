-- ===== src/Heap/Sums.antt =====
-- What the two statistics of the heap count.
use schwarz_kernel.Prelude.{
  ℕ, zero, suc, ◌+◌, ◌%◌, ◌^◌, ◌<◌, ◌≡◌, refl, Bool, true, false, not, Option, none, some, List, [],
  ◌∷◌, if◌then◌else◌, length, arith,
}
use schwarz_kernel.Heap.Store.{Memory, Heap}
use schwarz_kernel.Heap.Alloc.{sum_from, memory_free_bytes, memory_used_bytes}
use schwarz_kernel.Heap.Blocks.{Block, head_of, Linked}
use schwarz_kernel.Heap.Allocation.{HeapHolds}

-- The bytes of the blocks in use, or of the free ones, without their headers.
abbrev pub bytes_of : Bool → List Block → ℕ
bytes_of used [] = 0
bytes_of used (b ∷ bs) =
    (if (if used then b.used else not b.used) then b.size else 0) + bytes_of used bs

sum_from_lem :
    (used : Bool) (fuel : ℕ) (mem : Memory) (prev : Option ℕ) (bs : List Block)
    → length bs < fuel
    → Linked mem prev bs
    → sum_from used fuel (head_of bs) mem ≡ some (bytes_of used bs % 2 ^ 64)
unfolding sum_from
sum_from_lem used zero mem prev bs f l = absurd (omega arith)
sum_from_lem used (suc fuel) mem prev [] f l = refl
sum_from_lem used (suc fuel) mem prev (b ∷ bs) f l =
    rw (sum_from, l.0, sum_from_lem used fuel mem (some b.addr) bs (omega arith) l.1) (ground arith)

-- With more fuel than there are blocks, the statistics are the bytes of the free blocks and of the
-- blocks in use, in 64 bits.
pub memory_bytes_lem :
    (fuel : ℕ) (h : Heap) (bs : List Block)
    → HeapHolds h bs
    → length bs < fuel
    → (memory_free_bytes fuel h ≡ some (bytes_of false bs % 2 ^ 64))
      × (memory_used_bytes fuel h ≡ some (bytes_of true bs % 2 ^ 64))
unfolding memory_free_bytes memory_used_bytes
memory_bytes_lem fuel h bs v f = (
  rw v.head (sum_from_lem false fuel h.memory none bs f v.linked),
  rw v.head (sum_from_lem true fuel h.memory none bs f v.linked),
)
