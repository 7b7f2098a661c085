-- ===== src/Tests/HandlesTests.antt =====
-- The handle table of src/msvcrt/handle_manager.c on small histories.
use my_wine.Prelude.{ℕ, ◌≤◌, ◌<◌, ◌≡◌, ◌≢◌, refl, arith, inr, List, [], ◌∷◌, set}
use my_wine.Handles.{
  Slot, Table, handle_table_size, type_event, type_hwin, slot_at, init, find_free, alloc, get,
  get_type,
}
use my_wine.Handles.Invariant.{IsValid, init-IsValid, set-IsValid}
use my_wine.Handles.Laws.{get-alloc, Call, allocs, add_refs, frees, run, run-IsValid}

first_handle : (alloc type_event 77 init).0 ≡ 3
unfolding alloc find_free init
first_handle = refl

first_handle_ne : (alloc type_event 77 init).0 ≢ 0
first_handle_ne e = ground (arith, first_handle)

get-alloc_example :
    (3 ≤ (alloc type_event 77 init).0)
    × ((alloc type_event 77 init).0 < handle_table_size)
    × ((slot_at init (alloc type_event 77 init).0).ref_count ≡ 0)
    × (get (alloc type_event 77 init).1 (alloc type_event 77 init).0 ≡ 77)
    × (get_type (alloc type_event 77 init).1 (alloc type_event 77 init).0 ≡ type_event)
    × ((k : ℕ)
        → k ≢ (alloc type_event 77 init).0
        → slot_at (alloc type_event 77 init).1 k ≡ slot_at init k)
get-alloc_example = get-alloc init type_event 77 init-IsValid first_handle_ne

-- A table whose slot 3 has some references.
abbrev shared_slot : ℕ → Slot
shared_slot n = record { id = 3; type = type_hwin; ref_count = n; object = 77 }

abbrev shared : ℕ → Table
shared n = set init 3 (shared_slot n)

shared-IsValid : (n : ℕ) → 0 < n → n ≤ 255 → IsValid (shared n)
shared-IsValid n low high =
    set-IsValid init 3 (shared_slot n) init-IsValid (omega arith) (inr (refl, low, high))
      (λ h. absurd (omega arith))

shared_count : (n : ℕ) → (slot_at (shared n) 3).ref_count ≡ n
unfolding init
shared_count n = refl

abbrev history : List Call
history = allocs type_event 77 ∷ add_refs 3 ∷ frees 3 ∷ frees 3 ∷ frees 1 ∷ []

run-IsValid_example : IsValid (run init history)
run-IsValid_example = run-IsValid history
