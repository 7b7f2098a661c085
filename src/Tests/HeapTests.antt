-- ===== src/Tests/HeapTests.antt =====
-- Blocks of the heap of the 32-bit build (src/heap/pe32_mmap_heap_backend.c).
use my_wine.Prelude.{ℕ, ◌+◌, ◌<◌, ◌≤◌, ◌≡◌, refl, arith, inl, ◌⊎◌, List, [], ◌∷◌, some}
use my_wine.Pe.Memory.{Bytes, read, write}
use my_wine.Heap.Backend.{alloc_size, backend_malloc, backend_usable_size, backend_realloc, mapped}
use my_wine.Heap.Handles.{Heaps, no_heaps}
use my_wine.Heap.Calls.{Call, allocates, reallocates, frees, creates, destroys}
use my_wine.Heap.Blocks.{backend_malloc_fits, backend_realloc_moves}

-- Every mapping starts at 65536.
abbrev mmap : ℕ → ℕ
mmap len = 65536

maps : mapped 65536 ≡ some 65536
unfolding mapped
maps = refl

abbrev ones : Bytes
ones a = 1

backend_malloc_fits_example :
    ((backend_malloc mmap 10 ones).0 ≡ 65540)
    × (10 ≤ backend_usable_size 65540 (backend_malloc mmap 10 ones).1)
    × ((i : ℕ) → i < 10 → (backend_malloc mmap 10 ones).1 (65540 + i) ≡ 0)
    × ((a : ℕ)
        → (a < 65536) ⊎ (65536 + alloc_size 10 + 4 ≤ a)
        → (backend_malloc mmap 10 ones).1 a ≡ 1)
backend_malloc_fits_example =
    backend_malloc_fits mmap 10 65536 ones (omega arith) (omega arith) maps

-- A block of one page whose mapping starts at 131072.
abbrev one_block : Bytes
one_block = write 4 ones 131072 4096

header : read 4 one_block 131072 ≡ 4096
unfolding read write
header = refl

grown : alloc_size 5000 ≡ 5000
unfolding alloc_size
grown = refl

backend_realloc_moves_example :
    let r = backend_realloc mmap 131076 5000 one_block in
    (r.pointer ≡ 65540)
    × ((i : ℕ) → i < 4096 → r.memory (65540 + i) ≡ one_block (131076 + i))
    × (r.unmapped ≡ some (131072, 4100))
backend_realloc_moves_example =
    backend_realloc_moves mmap 131072 4096 5000 65536 one_block header (omega arith) (omega arith)
      maps (inl (omega (arith, grown)))

-- A process without heaps.
abbrev fresh : Heaps
fresh = no_heaps ones

-- Another place for mappings.
abbrev far : ℕ → ℕ
far len = 131072

-- The program uses the heap, and makes and destroys another one.
abbrev calls : List Call
calls =
    allocates far 65536 8 100
    ∷ reallocates far 65536 8 131076 5000
    ∷ creates far
    ∷ destroys 131072
    ∷ frees 65536 131076
    ∷ []
