-- ===== src/Memory.antt =====
-- The memory manager, kernel/core/memory.c: the heap and the pages.
pub mod Heap
pub mod Pages
pub mod Paging
pub mod Space
pub mod Boot
mod Tests
