-- ===== src/Heap/Calls.antt =====
-- A heap of src/heap/wine_heap.c while a program makes other calls.
use my_wine.Prelude.{
  ℕ, ◌+◌, ◌-◌, ◌%◌, ◌^◌, ◌≤◌, ◌<◌, ◌≡◌, refl, ap, ◌∙◌, arith, inl, inr, ◌⊎◌, not, List, [], ◌∷◌,
  none, some, Bool-cases, Option-cases, ◌==◌,
}
use my_wine.Pe.Memory.{Bytes, write_outside}
use my_wine.Heap.Backend.{
  clear, mapped, alloc_size, backend_malloc, backend_usable_size, move_block, backend_realloc,
}
use my_wine.Heap.Blocks.{alloc_size_bounds, backend_malloc_fits}
use my_wine.Heap.Handles.{
  Heaps, heap_handle_add, heap_create, is_heap, heap_destroy, heap_alloc, zeroed_tail,
  heap_re_alloc,
}

-- The four bytes of a heap handle keep what they are.
abbrev pub Untouched : ℕ → Bytes → Bytes → Type 0
Untouched h m m' = (x : ℕ) → h ≤ x → x < h + 4 → m' x ≡ m x

-- What mmap maps for a length does not lie over the handle.
abbrev pub Avoids : ℕ → (ℕ → ℕ) → ℕ → Type 0
Avoids h mmap len = (a : ℕ) → mapped (mmap len) ≡ some a → (a + len ≤ h) ⊎ (h + 4 ≤ a)

-- A block of the heap, or no block and the memory as it was.
Block : (ℕ → ℕ) → ℕ → Bytes → ℕ × Bytes → Type 0
Block mmap size memory r =
    ((r.0 ≡ 0) × (r.1 ≡ memory))
    ⊎ ((a : ℕ) × (mapped (mmap (alloc_size size + 4)) ≡ some a)
        × (r.0 ≡ a + 4)
        × (size ≤ alloc_size size)
        × ((x : ℕ) → (x < a) ⊎ (a + alloc_size size + 4 ≤ x) → r.1 x ≡ memory x))

backend_malloc-Block :
    (mmap : ℕ → ℕ) (size : ℕ) (memory : Bytes)
    → size < 2 ^ 32 - 7
    → Block mmap size memory (backend_malloc mmap size memory)
unfolding backend_malloc Block
backend_malloc-Block mmap size memory small = elim (Bool-cases (size == 0)) [
  | inl nothing ↦ inl (rw nothing refl, rw nothing refl)
  | inr bytes ↦ elim (Option-cases (mapped (mmap (alloc_size size + 4)))) [
    | inl failed ↦
        let b = alloc_size_bounds size small in
        let len : (alloc_size size + 4) % 2 ^ 32 ≡ alloc_size size + 4 = omega (arith, b.2) in
        let failed' : mapped (mmap ((alloc_size size + 4) % 2 ^ 32)) ≡ none =
          ap (λ k. mapped (mmap k)) len ∙ failed in
        let made : backend_malloc mmap size memory ≡ (0, memory) =
          rw (backend_malloc, bytes, failed') refl in
        inl (ap (λ r. r.0) made, ap (λ r. r.1) made)
    | inr (a, there) ↦
        let fits = backend_malloc_fits mmap size a memory (ground (arith, bytes)) small there in
        inr (a, there, fits.0, (alloc_size_bounds size small).0, fits.3)
  ]
]

pub heap_alloc-Untouched :
    (mmap : ℕ → ℕ) (h other flags bytes : ℕ) (s : Heaps)
    → bytes < 2 ^ 32 - 7
    → Avoids h mmap (alloc_size bytes + 4)
    → Untouched h s.memory (heap_alloc mmap other flags bytes s).1.memory
unfolding heap_alloc Block
heap_alloc-Untouched mmap h other flags bytes s small apart x lo hi =
    elim (backend_malloc-Block mmap bytes s.memory small) [
      | inl failed ↦ ground (arith, failed.0, ap (λ m. m x) failed.1)
      | inr block ↦ elim (apart block.0 block.1) [
        | inl low ↦ ground (arith, block.2, block.3, block.4 x)
        | inr high ↦ ground (arith, block.2, block.3, block.4 x)
      ]
    ]

pub heap_re_alloc-Untouched :
    (mmap : ℕ → ℕ) (h other flags block bytes : ℕ) (s : Heaps)
    → bytes < 2 ^ 32 - 7
    → Avoids h mmap (alloc_size bytes + 4)
    → Untouched h s.memory (heap_re_alloc mmap other flags block bytes s).1.memory
unfolding heap_re_alloc zeroed_tail backend_realloc move_block backend_usable_size Block
heap_re_alloc-Untouched mmap h other flags block bytes s small apart x lo hi =
    elim (backend_malloc-Block mmap bytes s.memory small) [
      | inl failed ↦ ground (arith, failed.0, ap (λ m. m x) failed.1)
      | inr made ↦ elim (apart made.0 made.1) [
        | inl low ↦ ground (arith, made.2, made.3, made.4 x)
        | inr high ↦ ground (arith, made.2, made.3, made.4 x)
      ]
    ]

pub heap_create-Untouched :
    (mmap : ℕ → ℕ) (h : ℕ) (s : Heaps)
    → Avoids h mmap 4
    → Untouched h s.memory (heap_create mmap s).1.memory
unfolding heap_create
heap_create-Untouched mmap h s apart x lo hi = elim (Option-cases (mapped (mmap 4))) [
  | inl failed ↦ rw (heap_create, failed) refl
  | inr (a, there) ↦
      let outside : (x < a) ⊎ (a + 4 ≤ x) = elim (apart a there) [
        | inl low ↦ inr (omega arith)
        | inr high ↦ inl (omega arith)
      ] in
      let same = write_outside 4 (clear s.memory a 4) a 1 x outside in
      let kept : clear s.memory a 4 x ≡ s.memory x = ground (arith, outside) in
      elim (Option-cases (heap_handle_add a s.handles)) [
        | inl full ↦ rw (heap_create, there, full) (same ∙ kept)
        | inr (handles, added) ↦ rw (heap_create, there, added) (same ∙ kept)
      ]
]

pub heap_destroy-Untouched :
    (h other : ℕ) (s : Heaps)
    → (other + 4 ≤ h) ⊎ (h + 4 ≤ other)
    → Untouched h s.memory (heap_destroy other s).1.memory
unfolding heap_destroy
heap_destroy-Untouched h other s apart x lo hi = elim (Bool-cases (not (is_heap other s))) [
  | inl refused ↦ rw (heap_destroy, refused) refl
  | inr done ↦
      rw (heap_destroy, done)
        (write_outside 4 s.memory other 0 x
          (elim apart [ inl low ↦ inr (omega arith) | inr high ↦ inl (omega arith) ]))
]

-- A call that a program may make while the heap is there: HeapAlloc, HeapReAlloc, HeapFree, and
-- HeapCreate and HeapDestroy for other heaps. Each mapping has an answer of mmap of its own.
pub data Call : Type 0 where
  allocates : (ℕ → ℕ) → ℕ → ℕ → ℕ → Call
  reallocates : (ℕ → ℕ) → ℕ → ℕ → ℕ → ℕ → Call
  frees : ℕ → ℕ → Call
  creates : (ℕ → ℕ) → Call
  destroys : ℕ → Call

-- HeapFree changes no state of the model: its call of munmap is an answer.
unfoldable pub step : Heaps → Call → Heaps
step s (allocates mmap other flags bytes) = (heap_alloc mmap other flags bytes s).1
step s (reallocates mmap other flags block bytes) = (heap_re_alloc mmap other flags block bytes s).1
step s (frees other block) = s
step s (creates mmap) = (heap_create mmap s).1
step s (destroys other) = (heap_destroy other s).1

unfoldable pub run : Heaps → List Call → Heaps
run s [] = s
run s (c ∷ cs) = run (step s c) cs

-- A call with a size whose rounding does not wrap around, and mappings apart from the handle.
unfoldable pub IsApart : ℕ → Call → Type 0
IsApart h (allocates mmap other flags bytes) =
    (bytes < 2 ^ 32 - 7) × Avoids h mmap (alloc_size bytes + 4)
IsApart h (reallocates mmap other flags block bytes) =
    (bytes < 2 ^ 32 - 7) × Avoids h mmap (alloc_size bytes + 4)
IsApart h (frees other block) = Unit {0}
IsApart h (creates mmap) = Avoids h mmap 4
IsApart h (destroys other) = (other + 4 ≤ h) ⊎ (h + 4 ≤ other)

unfoldable pub AllApart : ℕ → List Call → Type 0
unfolding IsApart
AllApart h [] = Unit {0}
AllApart h (c ∷ cs) = IsApart h c × AllApart h cs
