-- ===== src/Heap/Backend.antt =====
-- src/heap/pe32_mmap_heap_backend.c: each block is a mapping of its own, with its size in front.
-- Memory is its bytes by address, and `size_t` has 32 bits. What mmap answers for a length is an argument,
-- as synct_mmap2 returns it: an address, or an error number below 0 as its bit pattern. What it maps is
-- new bytes, which are 0. A call of munmap is an answer.
use my_wine.Prelude.{
  ℕ, ◌+◌, ◌-◌, ◌*◌, ◌/◌, ◌%◌, ◌^◌, not, ◌&&◌, ◌||◌, Option, none, some, leb, ltb, ◌==◌,
  if◌then◌else◌,
}
use my_wine.Pe.Memory.{Bytes, read, write}

-- memset to 0, and memcpy.
abbrev pub clear : Bytes → ℕ → ℕ → Bytes
clear memory p n a = if leb p a && ltb a (p + n) then 0 else memory a

abbrev pub copy : Bytes → ℕ → ℕ → ℕ → Bytes
copy memory dst src n a =
    if leb dst a && ltb a (dst + n) then memory (src + (a - dst)) else memory a

abbrev pub min_alloc : ℕ
min_alloc = 4096

-- The size of a block for a request: a multiple of 8, and a page at least.
unfoldable pub alloc_size : ℕ → ℕ
alloc_size size =
    let alloc = (size + 7) % 2 ^ 32 / 8 * 8 in if ltb alloc min_alloc then min_alloc else alloc

-- The test of what mmap answered: MAP_FAILED and NULL are failures, any other error number is taken for
-- an address.
unfoldable pub mapped : ℕ → Option ℕ
mapped mem = if (mem == 2 ^ 32 - 1) || (mem == 0) then none else some mem

-- heap_backend_malloc: the pointer, 0 for NULL, and the memory.
unfoldable pub backend_malloc : (ℕ → ℕ) → ℕ → Bytes → ℕ × Bytes
backend_malloc mmap size memory =
    let len = (alloc_size size + 4) % 2 ^ 32 in
    if size == 0 then (0, memory) else elim (mapped (mmap len)) [
      | none ↦ (0, memory)
      | some mem ↦ (mem + 4, write 4 (clear memory mem len) mem (alloc_size size))
    ]

-- heap_backend_usable_size
unfoldable pub backend_usable_size : ℕ → Bytes → ℕ
backend_usable_size ptr memory = if ptr == 0 then 0 else read 4 memory (ptr - 4)

-- heap_backend_free: the address and the length that go to munmap.
unfoldable pub backend_free : ℕ → Bytes → Option (ℕ × ℕ)
backend_free ptr memory =
    if ptr == 0 then none else some (ptr - 4, (read 4 memory (ptr - 4) + 4) % 2 ^ 32)

-- What heap_backend_realloc leaves: the pointer, the memory, and the call of munmap.
pub record Moved : Type 0 where
  pub pointer : ℕ
  pub memory : Bytes
  pub unmapped : Option (ℕ × ℕ)

-- Its part for a block that has to move.
unfoldable pub move_block : (ℕ → ℕ) → ℕ → ℕ → Bytes → Moved
move_block mmap ptr new_size memory =
    let new = backend_malloc mmap new_size memory in
    let old_alloc = read 4 memory (ptr - 4) in
    if new.0 == 0 then record { pointer = 0; memory = new.1; unmapped = none } else record {
      pointer = new.0;
      memory = copy new.1 new.0 ptr old_alloc;
      unmapped = backend_free ptr (copy new.1 new.0 ptr old_alloc);
    }

-- heap_backend_realloc
unfoldable pub backend_realloc : (ℕ → ℕ) → ℕ → ℕ → Bytes → Moved
backend_realloc mmap ptr new_size memory =
    if ptr == 0
    then record {
      pointer = (backend_malloc mmap new_size memory).0;
      memory = (backend_malloc mmap new_size memory).1;
      unmapped = none;
    }
    else if new_size == 0
    then record { pointer = 0; memory = memory; unmapped = backend_free ptr memory }
    else if leb new_size (read 4 memory (ptr - 4))
    then record { pointer = ptr; memory = memory; unmapped = none }
    else move_block mmap ptr new_size memory

-- heap_backend_calloc: a product that wraps around is refused.
unfoldable pub backend_calloc : (ℕ → ℕ) → ℕ → ℕ → Bytes → ℕ × Bytes
backend_calloc mmap n s memory =
    let total = n * s % 2 ^ 32 in
    let p = backend_malloc mmap total memory in
    if not (s == 0) && not (total / s == n)
    then (0, memory)
    else (p.0, if p.0 == 0 then p.1 else clear p.1 p.0 total)
