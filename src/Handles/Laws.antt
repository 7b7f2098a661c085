-- ===== src/Handles/Laws.antt =====
-- What wine_handle_alloc, wine_handle_add_ref and wine_handle_free promise of each other and of
-- the two readers.
use my_wine.Prelude.{
  ℕ, ◌+◌, ◌≤◌, ◌<◌, ◌≡◌, ◌≢◌, refl, arith, inl, inr, Bool-cases, List, [], ◌∷◌, ◌==◌, set,
  get_or-set, set-set, set-get_or,
}
use my_wine.Handles.Scan.{find_free_hit, find_free_passed}
use my_wine.Handles.Invariant.{IsValid, init-IsValid, alloc-IsValid, add_ref-IsValid, free-IsValid}
use my_wine.Handles.{
  Slot, Table, handle_table_size, empty_slot, slot_at, init, find_free, alloc, get, get_type,
  add_ref, free,
}

-- The slot that an allocation fills.
abbrev fresh : ℕ → ℕ → ℕ → Slot
fresh type object i = record { id = i; type = type; ref_count = 1; object = object }

pub alloc_hit :
    (t : Table) (type object : ℕ)
    → (alloc type object t).0 ≢ 0
    → let h = (alloc type object t).0 in
      (3 ≤ h)
      × (h < handle_table_size)
      × ((slot_at t h).ref_count ≡ 0)
      × ((alloc type object t).1 ≡ set t h (fresh type object h))
unfolding alloc
alloc_hit t type object ok = elim (Bool-cases (find_free 509 3 t == 0)) [
  | inl full ↦ absurd (ok (rw full))
  | inr hit ↦
      let found = find_free_hit 509 3 t (ground arith) in
      rw hit (found.0, omega (arith, found.1), found.2, refl)
]

-- On a valid table, a handle that `wine_handle_alloc` returns is above the standard streams and
-- inside the table, was free before, afterwards answers with the object and type given, and no
-- other slot changed.
pub get-alloc :
    (t : Table) (type object : ℕ)
    → IsValid t
    → (alloc type object t).0 ≢ 0
    → let (h, t') = alloc type object t in
      (3 ≤ h)
      × (h < handle_table_size)
      × ((slot_at t h).ref_count ≡ 0)
      × (get t' h ≡ object)
      × (get_type t' h ≡ type)
      × ((k : ℕ) → k ≢ h → slot_at t' k ≡ slot_at t k)
unfolding get get_type
get-alloc t type object v ok =
    let hit = alloc_hit t type object ok in
    let h = (alloc type object t).0 in
    (
      hit.0,
      hit.1,
      hit.2,
      ground (arith, hit, get_or-set t h h (fresh type object h) empty_slot, v.size),
      ground (arith, hit, get_or-set t h h (fresh type object h) empty_slot, v.size),
      λ k ne. ground (arith, hit, get_or-set t h k (fresh type object h) empty_slot, v.size),
    )

-- `wine_handle_alloc` returns 0 exactly when the slots 3 to 511 are all taken, and then the table
-- is unchanged.
pub alloc-eq-zero :
    (t : Table) (type object : ℕ)
    → (((alloc type object t).0 ≡ 0)
        → ((alloc type object t).1 ≡ t)
          × ((k : ℕ) → 3 ≤ k → k < handle_table_size → (slot_at t k).ref_count ≢ 0))
      × (((k : ℕ) → 3 ≤ k → k < handle_table_size → (slot_at t k).ref_count ≢ 0)
          → (alloc type object t).0 ≡ 0)
alloc-eq-zero t type object = (
  λ none. (
    unfold alloc in ground arith,
    λ k lo hi.
        find_free_passed 509 3 t k (omega arith) lo (omega arith)
          (λ hit. absurd (hit (unfold alloc in ground arith))),
  ),
  λ taken. elim (Bool-cases ((alloc type object t).0 == 0)) [
    | inl zero ↦ ground arith
    | inr hit ↦
        let found = alloc_hit t type object (ground arith) in
        absurd (taken _ found.0 found.1 found.2)
  ],
)

-- On a valid table, freeing a handle right after it was allocated gives the table back as it was.
pub free-alloc :
    (t : Table) (type object : ℕ)
    → IsValid t
    → (alloc type object t).0 ≢ 0
    → free (alloc type object t).1 (alloc type object t).0 ≡ t
unfolding free
free-alloc t type object v ok =
    let hit = alloc_hit t type object ok in
    let h = (alloc type object t).0 in
    ground (
      arith,
      hit,
      get_or-set t h h (fresh type object h) empty_slot,
      set-set t h (fresh type object h) empty_slot,
      set-get_or t h empty_slot,
      v.sound h,
      v.size,
    )

-- On a valid table, a reference that is added to a live handle above the standard streams, with
-- fewer than 255 of them, is given back by one free, which leaves the table as it was.
pub free-add_ref :
    (t : Table) (h : ℕ)
    → IsValid t
    → 2 < h
    → h < handle_table_size
    → 0 < (slot_at t h).ref_count
    → (slot_at t h).ref_count < 255
    → free (add_ref t h) h ≡ t
unfolding free add_ref
free-add_ref t h v low high live room = ground (
  arith,
  get_or-set t h h (record (slot_at t h) { ref_count = (slot_at t h).ref_count + 1 }) empty_slot,
  set-set t h (record (slot_at t h) { ref_count = (slot_at t h).ref_count + 1 }) (slot_at t h),
  set-get_or t h empty_slot,
  v.size,
)

-- The count of references saturates: on a valid table, with 255 references to a handle above the
-- standard streams, a further one is not recorded, so adding a reference and freeing it leaves
-- 254.
pub add_ref_saturates :
    (t : Table) (h : ℕ)
    → IsValid t
    → 2 < h
    → h < handle_table_size
    → (slot_at t h).ref_count ≡ 255
    → (slot_at (free (add_ref t h) h) h).ref_count ≡ 254
unfolding free add_ref
add_ref_saturates t h v low high full = ground (
  arith,
  set-get_or t h empty_slot,
  get_or-set t h h (record (slot_at t h) { ref_count = 254 }) empty_slot,
  v.size,
)

-- A call of the three operations that write the table.
pub data Call : Type 0 where
  allocs : ℕ → ℕ → Call
  add_refs : ℕ → Call
  frees : ℕ → Call

unfoldable pub step : Table → Call → Table
step t (allocs type object) = (alloc type object t).1
step t (add_refs h) = add_ref t h
step t (frees h) = free t h

unfoldable pub run : Table → List Call → Table
run t [] = t
run t (c ∷ cs) = run (step t c) cs

run_from-IsValid : (t : Table) (cs : List Call) → IsValid t → IsValid (run t cs)
unfolding run step
run_from-IsValid t [] v = v
run_from-IsValid t (allocs type object ∷ cs) v =
    run_from-IsValid (alloc type object t).1 cs (alloc-IsValid t type object v)
run_from-IsValid t (add_refs h ∷ cs) v = run_from-IsValid (add_ref t h) cs (add_ref-IsValid t h v)
run_from-IsValid t (frees h ∷ cs) v = run_from-IsValid (free t h) cs (free-IsValid t h v)

-- After any sequence of calls from the initial table, the table has 512 slots, a slot is zeroed or
-- live under its own number with a count of at most 255, and the standard streams are live.
pub run-IsValid : (cs : List Call) → IsValid (run init cs)
run-IsValid cs = run_from-IsValid init cs init-IsValid
