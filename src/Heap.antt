-- ===== src/Heap.antt =====
-- memory.cpp: the heap.
pub mod Store
pub mod Alloc
pub mod Blocks
pub mod Carving
pub mod Allocation
pub mod Exclusion
pub mod Sums
pub mod Init
pub mod Release
pub mod Merging
pub mod Freeing
mod Tests
