-- ===== src/Heap.antt =====
-- The heap of the 32-bit build: src/heap/wine_heap.c over src/heap/pe32_mmap_heap_backend.c.
pub mod Backend
pub mod Handles
pub mod Blocks
pub mod Lifetime
pub mod Calls
pub mod History
