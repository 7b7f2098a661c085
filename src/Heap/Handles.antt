-- ===== src/Heap/Handles.antt =====
-- src/heap/wine_heap.c in the 32-bit build: heap handles, and the calls on blocks. `wine_heap_t` is its
-- one field `is_valid`, an int at the handle's address; the munmap of a handle is dropped.
use my_wine.Prelude.{
  ℕ, ◌+◌, ◌-◌, ◌/◌, ◌%◌, ◌^◌, Bool, false, not, ◌&&◌, ◌||◌, List, Option, none, some, replicate,
  set, ltb, ◌==◌, if◌then◌else◌,
}
use my_wine.Prelude.Search.{find_index}
use mathlib.Core.Option
use my_wine.Pe.Memory.{Bytes, read, write}
use my_wine.Heap.Backend.{
  Moved, mapped, clear, backend_malloc, backend_free, backend_realloc, backend_usable_size,
}

-- `g_heap_handles`, `g_process_heap`, and the memory.
pub record Heaps : Type 0 where
  pub handles : List ℕ
  pub process_heap : ℕ
  pub memory : Bytes

-- The state at the start.
abbrev pub no_heaps : Bytes → Heaps
no_heaps memory = record { handles = replicate 64 0; process_heap = 0; memory = memory }

-- heap_handle_find, none for -1
unfoldable pub heap_handle_find : ℕ → List ℕ → Option ℕ
heap_handle_find h handles = find_index (λ x. x == h) handles

-- heap_handle_add, none for 0
unfoldable pub heap_handle_add : ℕ → List ℕ → Option (List ℕ)
unfolding heap_handle_find
heap_handle_add h handles = Option.map (λ i. set handles i h) (heap_handle_find 0 handles)

-- heap_handle_remove
unfoldable pub heap_handle_remove : ℕ → List ℕ → List ℕ
heap_handle_remove h handles = elim (heap_handle_find h handles) [
  | none ↦ handles
  | some idx ↦ set handles idx 0
]

-- HeapCreate: the handle, 0 for NULL.
unfoldable pub heap_create : (ℕ → ℕ) → Heaps → ℕ × Heaps
heap_create mmap s = elim (mapped (mmap 4)) [
  | none ↦ (0, s)
  | some mem ↦
      let memory = write 4 (clear s.memory mem 4) mem 1 in
      elim (heap_handle_add mem s.handles) [
        | none ↦ (0, record s { memory = memory })
        | some handles ↦ (mem, record s { handles = handles; memory = memory })
      ]
]

-- The test at the start of every call.
unfoldable pub is_heap : ℕ → Heaps → Bool
is_heap h s = not (h == 0) && elim (heap_handle_find h s.handles) [
  | none ↦ false
  | some idx ↦ not (read 4 s.memory h == 0)
]

-- HEAP_ZERO_MEMORY in the flags.
abbrev pub zeroes : ℕ → Bool
zeroes flags = flags / 8 % 2 == 1

-- HeapAlloc
unfoldable pub heap_alloc : (ℕ → ℕ) → ℕ → ℕ → ℕ → Heaps → ℕ × Heaps
heap_alloc mmap h flags bytes s =
    let r = backend_malloc mmap bytes s.memory in
    if not (is_heap h s) || (bytes == 0) then (0, s) else (
      r.0,
      record s { memory = if not (r.0 == 0) && zeroes flags then clear r.1 r.0 bytes else r.1 },
    )

-- HeapFree: the result, and the call of munmap.
unfoldable pub heap_free : ℕ → ℕ → Heaps → ℕ × Option (ℕ × ℕ)
heap_free h mem s =
    if not (is_heap h s)
    then (0, none)
    else if mem == 0
    then (1, none)
    else (1, backend_free mem s.memory)

-- HeapReAlloc: the memory behind the zeroing of the bytes past the old size.
unfoldable pub zeroed_tail : ℕ → ℕ → ℕ → Moved → Bytes
zeroed_tail flags bytes old_size r =
    if not (r.pointer == 0) && zeroes flags && ltb old_size bytes
    then clear r.memory (r.pointer + old_size) (bytes - old_size)
    else r.memory

unfoldable pub heap_re_alloc : (ℕ → ℕ) → ℕ → ℕ → ℕ → ℕ → Heaps → ℕ × Heaps × Option (ℕ × ℕ)
unfolding zeroed_tail
heap_re_alloc mmap h flags mem bytes s =
    let r = backend_realloc mmap mem bytes s.memory in
    if not (is_heap h s) then (0, s, none) else (
      r.pointer,
      record s { memory = zeroed_tail flags bytes (backend_usable_size mem s.memory) r },
      r.unmapped,
    )

-- HeapDestroy
unfoldable pub heap_destroy : ℕ → Heaps → ℕ × Heaps
heap_destroy h s = if not (is_heap h s) then (0, s) else (
  1,
  record {
    handles = heap_handle_remove h s.handles;
    process_heap = if h == s.process_heap then 0 else s.process_heap;
    memory = write 4 s.memory h 0;
  },
)

-- HeapSize; `(uintptr_t)-1` is 2 ^ 32 - 1.
unfoldable pub heap_size : ℕ → ℕ → Heaps → ℕ
heap_size h mem s =
    if not (is_heap h s) || (mem == 0) then 2 ^ 32 - 1 else backend_usable_size mem s.memory

-- init_process_heap
unfoldable pub init_process_heap : (ℕ → ℕ) → Heaps → ℕ × Heaps
init_process_heap mmap s =
    let r = heap_create mmap s in
    if not (s.process_heap == 0)
    then (s.process_heap, s)
    else (r.0, record r.1 { process_heap = r.0 })
