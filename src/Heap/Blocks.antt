-- ===== src/Heap/Blocks.antt =====
-- The blocks of src/heap/pe32_mmap_heap_backend.c.
use my_wine.Prelude.{
  ℕ, ◌+◌, ◌-◌, ◌%◌, ◌^◌, ◌≤◌, ◌<◌, ◌≡◌, ◌≢◌, refl, ap, ◌∙◌, arith, inl, inr, ◌⊎◌, true, false, ◌&&◌,
  some, leb, ltb, ◌==◌,
}
use my_wine.Pe.Memory.{Bytes, read, write, span, read_cong, read-write, write_outside}
use my_wine.Heap.Backend.{
  clear, copy, mapped, alloc_size, backend_malloc, backend_usable_size, backend_free, move_block,
  backend_realloc,
}

pub alloc_size_bounds :
    (size : ℕ)
    → size < 2 ^ 32 - 7
    → (size ≤ alloc_size size) × (4096 ≤ alloc_size size) × (alloc_size size + 4 < 2 ^ 32)
unfolding alloc_size
alloc_size_bounds size h = ground arith

-- What mmap's answer is turned into.
malloc_mapped :
    (mmap : ℕ → ℕ) (size len mem : ℕ) (memory : Bytes)
    → size ≢ 0
    → (alloc_size size + 4) % 2 ^ 32 ≡ len
    → mapped (mmap len) ≡ some mem
    → backend_malloc mmap size memory
      ≡ (mem + 4, write 4 (clear memory mem len) mem (alloc_size size))
unfolding backend_malloc
malloc_mapped mmap size len mem memory some_bytes l there =
    let z : (size == 0) ≡ false = ground (arith, some_bytes) in
    let there' : mapped (mmap ((alloc_size size + 4) % 2 ^ 32)) ≡ some mem =
      ap (λ k. mapped (mmap k)) l ∙ there in
    let made : backend_malloc mmap size memory ≡ (
      mem + 4,
      write 4 (clear memory mem ((alloc_size size + 4) % 2 ^ 32)) mem (alloc_size size),
    ) =
      rw (backend_malloc, z, there') refl in
    made ∙ ap (λ k. (mem + 4, write 4 (clear memory mem k) mem (alloc_size size))) l

-- The size in front of a block.
usable :
    (memory : Bytes) (mem size : ℕ)
    → size < 2 ^ 32
    → backend_usable_size (mem + 4) (write 4 memory mem size) ≡ size
unfolding backend_usable_size span
usable memory mem size h =
    let p : (mem + 4 == 0) ≡ false = ground arith in
    let q : mem + 4 - 4 ≡ mem = omega arith in
    rw (backend_usable_size, p, q) (read-write 4 memory mem size h)

-- A request of fewer than 2 ^ 32 - 7 bytes, where mmap maps what it is asked for, gives a block that has
-- at least that many bytes, all of them 0, and no byte outside of the mapping has changed.
pub backend_malloc_fits :
    (mmap : ℕ → ℕ) (size mem : ℕ) (memory : Bytes)
    → 0 < size
    → size < 2 ^ 32 - 7
    → mapped (mmap (alloc_size size + 4)) ≡ some mem
    → ((backend_malloc mmap size memory).0 ≡ mem + 4)
      × (size ≤ backend_usable_size (mem + 4) (backend_malloc mmap size memory).1)
      × ((i : ℕ) → i < size → (backend_malloc mmap size memory).1 (mem + 4 + i) ≡ 0)
      × ((a : ℕ)
          → (a < mem) ⊎ (mem + alloc_size size + 4 ≤ a)
          → (backend_malloc mmap size memory).1 a ≡ memory a)
backend_malloc_fits mmap size mem memory some_bytes small there =
    let n = alloc_size size in
    let b = alloc_size_bounds size small in
    let len : (n + 4) % 2 ^ 32 ≡ n + 4 = omega (arith, b.2) in
    let made =
      malloc_mapped mmap size (n + 4) mem memory (λ e. absurd (omega (arith, e))) len there in
    let size_there = usable (clear memory mem (n + 4)) mem n (omega (arith, b.2)) in
    rw made (
      refl,
      rw size_there b.0,
      λ i lt.
          write_outside 4 (clear memory mem (n + 4)) mem n (mem + 4 + i) (inr (omega arith))
          ∙ ground (arith, b.0),
      λ a out. elim out [
        | inl low ↦ write_outside 4 (clear memory mem (n + 4)) mem n a (inl low) ∙ ground arith
        | inr high ↦
            write_outside 4 (clear memory mem (n + 4)) mem n a (inr (omega arith)) ∙ ground arith
      ],
    )

wrapped : (size : ℕ) → 2 ^ 32 - 7 ≤ size → size < 2 ^ 32 → alloc_size size ≡ 4096
unfolding alloc_size
wrapped size large small = ground arith

-- A request of the last seven sizes that 32 bits hold gives a block of 4096 bytes.
pub backend_malloc_wraps :
    (mmap : ℕ → ℕ) (size mem : ℕ) (memory : Bytes)
    → 2 ^ 32 - 7 ≤ size
    → size < 2 ^ 32
    → mapped (mmap 4100) ≡ some mem
    → ((backend_malloc mmap size memory).0 ≡ mem + 4)
      × (backend_usable_size (mem + 4) (backend_malloc mmap size memory).1 ≡ 4096)
backend_malloc_wraps mmap size mem memory large small there =
    let n : alloc_size size ≡ 4096 = wrapped size large small in
    let len : (alloc_size size + 4) % 2 ^ 32 ≡ 4100 = rw n refl in
    let made = malloc_mapped mmap size 4100 mem memory (λ e. absurd (omega (arith, e))) len there in
    rw (made, n) (refl, usable (clear memory mem 4100) mem 4096 (omega arith))

-- The three parts of a move.
move_block-moved :
    (mmap : ℕ → ℕ) (base old_alloc new_size mem : ℕ) (memory : Bytes)
    → read 4 memory base ≡ old_alloc
    → (backend_malloc mmap new_size memory).0 ≡ mem + 4
    → read 4 (copy (backend_malloc mmap new_size memory).1 (mem + 4) (base + 4) old_alloc) base
      ≡ old_alloc
    → old_alloc + 4 < 2 ^ 32
    → move_block mmap (base + 4) new_size memory ≡ record {
      pointer = mem + 4;
      memory = copy (backend_malloc mmap new_size memory).1 (mem + 4) (base + 4) old_alloc;
      unmapped = some (base, old_alloc + 4);
    }
unfolding move_block backend_free
move_block-moved mmap base old_alloc new_size mem memory header new header' small =
    let q : base + 4 - 4 ≡ base = omega arith in
    let p : (base + 4 == 0) ≡ false = ground arith in
    let real : (mem + 4 == 0) ≡ false = ground arith in
    let len : (old_alloc + 4) % 2 ^ 32 ≡ old_alloc + 4 = omega arith in
    rw (move_block, q, header, new, real, backend_free, p, header', len) refl

-- A block that has to move to a mapping apart from it keeps its bytes, and exactly its own mapping goes
-- to munmap.
pub backend_realloc_moves :
    (mmap : ℕ → ℕ) (base old_alloc new_size mem : ℕ) (memory : Bytes)
    → read 4 memory base ≡ old_alloc
    → old_alloc < new_size
    → new_size < 2 ^ 32 - 7
    → mapped (mmap (alloc_size new_size + 4)) ≡ some mem
    → (mem + alloc_size new_size + 4 ≤ base) ⊎ (base + old_alloc + 4 ≤ mem)
    → let r = backend_realloc mmap (base + 4) new_size memory in
      (r.pointer ≡ mem + 4)
      × ((i : ℕ) → i < old_alloc → r.memory (mem + 4 + i) ≡ memory (base + 4 + i))
      × (r.unmapped ≡ some (base, old_alloc + 4))
unfolding backend_realloc
backend_realloc_moves mmap base old_alloc new_size mem memory header grows small there apart =
    let n = alloc_size new_size in
    let b = alloc_size_bounds new_size small in
    let new = backend_malloc mmap new_size memory in
    let fits = backend_malloc_fits mmap new_size mem memory (omega arith) small there in
    let q : base + 4 - 4 ≡ base = omega arith in
    let p : (base + 4 == 0) ≡ false = ground arith in
    let z : (new_size == 0) ≡ false = ground arith in
    let more : leb new_size old_alloc ≡ false = ground arith in
    let real : (mem + 4 == 0) ≡ false = ground arith in
    let same : (a : ℕ) → base ≤ a → a < base + 4 + old_alloc → new.1 a ≡ memory a =
      λ a lo hi. fits.3 a (elim apart [ inl e ↦ inr (omega arith) | inr e ↦ inl (omega arith) ]) in
    let moved = copy new.1 (mem + 4) (base + 4) old_alloc in
    let kept : (a : ℕ) → base ≤ a → a < base + 4 → moved a ≡ memory a = λ a lo hi.
      let out : (leb (mem + 4) a && ltb a (mem + 4 + old_alloc)) ≡ false = elim apart [
        | inl e ↦ ground (arith, b.0)
        | inr e ↦ ground arith
      ] in
      rw out (same a lo (omega arith)) in
    let header' : read 4 moved base ≡ old_alloc = read_cong 4 moved memory base kept ∙ header in
    let moving : backend_realloc mmap (base + 4) new_size memory
        ≡ move_block mmap (base + 4) new_size memory =
      rw (backend_realloc, p, z, q, header, more) refl in
    rw
      (
        moving,
        move_block-moved mmap base old_alloc new_size mem memory header fits.0 header'
            (omega arith),
      )
      (
        refl,
        λ i lt.
            let inside : (leb (mem + 4) (mem + 4 + i) && ltb (mem + 4 + i) (mem + 4 + old_alloc))
                ≡ true =
              ground arith in
            let back : base + 4 + (mem + 4 + i - (mem + 4)) ≡ base + 4 + i = omega arith in
            rw (inside, back) (same (base + 4 + i) (omega arith) (omega arith)),
        refl,
      )
