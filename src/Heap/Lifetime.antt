-- ===== src/Heap/Lifetime.antt =====
-- The life of a heap handle in src/heap/wine_heap.c.
use my_wine.Prelude.{
  ℕ, ◌≡◌, ◌≢◌, refl, ap, sym, ◌∙◌, arith, true, false, none, some, get_or, set, set-set, set-get_or,
  Bool-cases, inl, inr, ◌==◌, if◌then◌else◌,
}
use my_wine.Prelude.Search.{find_index-hit, find_index-set}
use my_wine.Pe.Memory.{read, write, span, read-write}
use my_wine.Heap.Backend.{clear, mapped}
use my_wine.Heap.Handles.{
  Heaps, heap_handle_find, heap_handle_add, heap_handle_remove, heap_create, is_heap, heap_destroy,
}

-- The state that HeapCreate leaves.
abbrev pub created : ℕ → ℕ → Heaps → Heaps
created mem i s = record s {
  handles = set s.handles i mem;
  memory = write 4 (clear s.memory mem 4) mem 1;
}

pub heap_create-created :
    (mmap : ℕ → ℕ) (mem i : ℕ) (s : Heaps)
    → mapped (mmap 4) ≡ some mem
    → heap_handle_find 0 s.handles ≡ some i
    → heap_create mmap s ≡ (mem, created mem i s)
unfolding heap_create heap_handle_add
heap_create-created mmap mem i s there free = rw (heap_create, there, heap_handle_add, free) refl

is_heap-created :
    (mem i : ℕ) (s : Heaps)
    → mem ≢ 0
    → heap_handle_find mem (set s.handles i mem) ≡ some i
    → is_heap mem (created mem i s) ≡ true
unfolding is_heap span
is_heap-created mem i s real found =
    let z : (mem == 0) ≡ false = ground (arith, real) in
    let one : read 4 (write 4 (clear s.memory mem 4) mem 1) mem ≡ 1 =
      read-write 4 (clear s.memory mem 4) mem 1 (omega arith) in
    rw (is_heap, z, found, one) refl

-- The state that HeapDestroy leaves.
abbrev pub destroyed : ℕ → Heaps → Heaps
destroyed h s = record {
  handles = heap_handle_remove h s.handles;
  process_heap = if h == s.process_heap then 0 else s.process_heap;
  memory = write 4 s.memory h 0;
}

pub heap_destroy-destroyed :
    (h : ℕ) (s : Heaps) → is_heap h s ≡ true → heap_destroy h s ≡ (1, destroyed h s)
unfolding heap_destroy
heap_destroy-destroyed h s live = rw (heap_destroy, live) refl

is_heap-missing : (h : ℕ) (s : Heaps) → heap_handle_find h s.handles ≡ none → is_heap h s ≡ false
unfolding is_heap
is_heap-missing h s missing = elim (Bool-cases (h == 0)) [
  | inl e ↦ rw (is_heap, e) refl
  | inr e ↦ rw (is_heap, e, missing) refl
]

-- A heap that HeapCreate makes at an address that is no handle is a heap, and HeapDestroy right after
-- it succeeds, gives the table of handles back as it was, and leaves no heap there.
pub heap_destroy-heap_create :
    (mmap : ℕ → ℕ) (mem i : ℕ) (s : Heaps)
    → mapped (mmap 4) ≡ some mem
    → mem ≢ 0
    → heap_handle_find 0 s.handles ≡ some i
    → heap_handle_find mem s.handles ≡ none
    → let s' = (heap_create mmap s).1 in
      let r = heap_destroy mem s' in
      ((heap_create mmap s).0 ≡ mem)
      × (is_heap mem s' ≡ true)
      × (r.0 ≡ 1)
      × (r.1.handles ≡ s.handles)
      × (is_heap mem r.1 ≡ false)
unfolding heap_handle_remove heap_handle_find
heap_destroy-heap_create mmap mem i s there real free fresh =
    let hit = find_index-hit (λ x. x == 0) s.handles i 0 free in
    let zero_there : get_or s.handles i 0 ≡ 0 = ground (arith, hit.1) in
    let own : (mem == mem) ≡ true = ground arith in
    let found : heap_handle_find mem (set s.handles i mem) ≡ some i =
      find_index-set (λ x. x == mem) s.handles i mem fresh hit.0 own in
    let live = is_heap-created mem i s real found in
    let back : set (set s.handles i mem) i 0 ≡ s.handles =
      set-set s.handles i mem 0
      ∙ ap (λ x. set s.handles i x) (sym zero_there)
      ∙ set-get_or s.handles i 0 in
    let removed : heap_handle_remove mem (set s.handles i mem) ≡ s.handles =
      rw (heap_handle_remove, found) back in
    let c = heap_create-created mmap mem i s there free in
    let dead =
      ap (λ r. heap_destroy mem r.1) c ∙ heap_destroy-destroyed mem (created mem i s) live in
    (
      ap (λ r. r.0) c,
      ap (λ r. is_heap mem r.1) c ∙ live,
      ap (λ r. r.0) dead,
      ap (λ r. r.1.handles) dead ∙ removed,
      ap (λ r. is_heap mem r.1) dead
          ∙ is_heap-missing mem (destroyed mem (created mem i s))
              (ap (heap_handle_find mem) removed ∙ fresh),
    )
