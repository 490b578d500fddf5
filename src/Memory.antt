-- ===== src/Memory.antt =====
-- src/kernel/memory.c and src/include/memory.h: addresses and page-table entries, the stack of free
-- page frames, the page tables, and the heap.
pub mod Address
pub mod Frames
pub mod FreeList
pub mod Paging
pub mod Messages
pub mod Heap
pub mod Report
mod Tests
