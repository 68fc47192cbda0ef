-- ===== src/Heap/Store.antt =====
-- memory.cpp: the block headers and memory_init.
use schwarz_kernel.Prelude.{
  ℕ, ◌+◌, ◌-◌, ◌%◌, ◌^◌, Bool, false, not, Option, none, some, List, [], ◌∷◌, ◌==◌, ltb, leb,
  if◌then◌else◌,
}

abbrev pub heap_magic : ℕ
heap_magic = 0xC001C0DECAFE8888

-- `used` is 0 or 1 in the source; a pointer is an address, and `none` the null pointer.
pub record BlockHeader : Type 0 where
  pub magic : ℕ
  pub size : ℕ
  pub used : Bool
  pub next : Option ℕ
  pub prev : Option ℕ

-- The header at each address. Headers at different addresses are taken to be apart.
abbrev pub Memory : Type 0
Memory = ℕ → BlockHeader

abbrev pub put : ℕ → BlockHeader → Memory → Memory
put a h mem x = if x == a then h else mem x

-- `next->prev = prev`, where there is a next block.
unfoldable pub set_prev : Option ℕ → Option ℕ → Memory → Memory
set_prev none prev mem = mem
set_prev (some n) prev mem = put n (record (mem n) { prev = prev }) mem

pub record Heap : Type 0 where
  pub memory : Memory
  pub heap_head : Option ℕ
  pub heap_start_addr : ℕ
  pub heap_end_addr : ℕ

-- `usable` is `kind == MEM_REGION_USABLE`.
pub record MemoryRegion : Type 0 where
  pub base : ℕ
  pub length : ℕ
  pub usable : Bool

-- The region without the first two megabytes; `none` where nothing is left of it.
unfoldable pub above_2mb : MemoryRegion → Option (ℕ × ℕ)
above_2mb r =
    if ltb r.base 0x200000
    then (let skip = 0x200000 - r.base in
        if leb r.length skip then none else some (r.base + skip, r.length - skip))
    else some (r.base, r.length)

-- `previous->next = block`, or the block is the head.
unfoldable pub link_block : Option ℕ → ℕ → Heap → Heap
link_block none block h = record h { heap_head = some block }
link_block (some p) block h = record h {
  memory = put p (record (h.memory p) { next = some block }) h.memory;
}

-- One region in the list, behind `previous`.
unfoldable pub add_region : ℕ → ℕ → Option ℕ → Heap → Heap
add_region base size previous h =
    let limit = (base + size) % 2 ^ 64 in
    link_block previous base (record h {
      heap_start_addr = if ltb base h.heap_start_addr then base else h.heap_start_addr;
      heap_end_addr = if ltb h.heap_end_addr limit then limit else h.heap_end_addr;
      memory =
          put base
            (record {
              magic = heap_magic;
              size = size - 40;
              used = false;
              next = none;
              prev = previous;
            })
            h.memory;
    })

unfoldable pub add_regions : List MemoryRegion → Option ℕ → Heap → Heap
add_regions [] previous h = h
add_regions (r ∷ rs) previous h =
    if not r.usable then add_regions rs previous h else elim (above_2mb r) [
      | none ↦ add_regions rs previous h
      | some (base, size) ↦
          if ltb size 56
          then add_regions rs previous h
          else add_regions rs (some base) (add_region base size previous h)
    ]

-- `none` where the kernel halts, as there is no memory.
unfoldable pub memory_init : List MemoryRegion → Memory → Option Heap
memory_init regions memory =
    let h = add_regions regions none (record {
      memory = memory;
      heap_head = none;
      heap_start_addr = 0xFFFFFFFFFFFFFFFF;
      heap_end_addr = 0;
    }) in
    elim h.heap_head [ none ↦ none | some a ↦ some h ]
