-- ===== src/Heap/Init.antt =====
-- memory.cpp: memory_init makes the list of blocks that malloc and free work on.
use schwarz_kernel.Prelude.{
  ℕ, ◌+◌, ◌-◌, ◌≡◌, ◌≢◌, ◌⊎◌, false, ◌&&◌, Option, none, some, List, [], ◌∷◌, leb, ltb,
  if◌then◌else◌,
}
use schwarz_kernel.Heap.Store.{heap_magic, BlockHeader, Heap, MemoryRegion, add_region, add_regions}
use schwarz_kernel.Heap.Blocks.{Block, head_of, Linked, Outside}

-- Where a region begins behind the first two megabytes.
abbrev start_of : MemoryRegion → ℕ
start_of r = if ltb r.base 0x200000 then 0x200000 else r.base

-- A free block for each usable region with room for a header and 16 bytes behind the first two megabytes.
abbrev pub region_blocks : List MemoryRegion → List Block
region_blocks [] = []
region_blocks (r ∷ rs) =
    if r.usable && leb (start_of r + 56) (r.base + r.length)
    then record { addr = start_of r; size = r.base + r.length - start_of r - 40; used = false }
      ∷ region_blocks rs
    else region_blocks rs

-- What one region does.
Step : MemoryRegion → List MemoryRegion → Option ℕ → Heap → Type 0
Step r rs previous h =
    ((add_regions (r ∷ rs) previous h ≡ add_regions rs previous h)
      × (region_blocks (r ∷ rs) ≡ region_blocks rs))
    ⊎ ((b : Block) × (add_regions (r ∷ rs) previous h
          ≡ add_regions rs (some b.addr) (add_region b.addr (b.size + 40) previous h))
        × (region_blocks (r ∷ rs) ≡ b ∷ region_blocks rs)
        × (b.used ≡ false))

-- What the regions after the block at `p` do: they are linked behind it, and nothing else changes.
record Tail (p : ℕ) (h h' : Heap) (bs : List Block) : Type 0 where
  linked : Linked h'.memory (some p) bs
  next : h'.memory p ≡ record (h.memory p) { next = head_of bs }
  frame : (x : ℕ) → x ≢ p → Outside x bs → h'.memory x ≡ h.memory x
  head : h'.heap_head ≡ h.heap_head

-- The header as it is first written.
abbrev free_header : Option ℕ → Block → BlockHeader
free_header prev b = record {
  magic = heap_magic;
  size = b.size + 40 - 40;
  used = false;
  next = none;
  prev = prev;
}
