-- ===== src/Handles/Invariant.antt =====
-- What every operation keeps of the handle table: its size, the counts within a byte, the numbers
-- stored in the slots, zeroed free slots, and the three standard streams.
use my_wine.Prelude.{
  ℕ, zero, suc, ◌≤◌, ◌<◌, ◌≡◌, refl, arith, inl, inr, ◌⊎◌, Bool-cases, get_or-set, get_or-replicate,
  set, length, length-set, ◌∙◌, ◌==◌, leb,
}
use my_wine.Handles.Scan.{find_free_hit}
use my_wine.Handles.{
  Slot, Table, handle_table_size, empty_slot, slot_at, init, find_free, alloc, add_ref, free,
}

-- A slot of a valid table: free and zeroed, or live under its own number.
abbrev pub IsSound : ℕ → Slot → Type 0
IsSound i s = (s ≡ empty_slot) ⊎ ((s.id ≡ i) × (0 < s.ref_count) × (s.ref_count ≤ 255))

pub record IsValid (t : Table) : Type 0 where
  pub size : length t ≡ handle_table_size
  pub sound : (i : ℕ) → IsSound i (slot_at t i)
  pub standard : (i : ℕ) → i ≤ 2 → 0 < (slot_at t i).ref_count

init-IsSound : (i : ℕ) → IsSound i (slot_at init i)
unfolding init
init-IsSound zero = inr (omega arith)
init-IsSound (suc zero) = inr (omega arith)
init-IsSound (suc (suc zero)) = inr (omega arith)
init-IsSound (suc (suc (suc i))) = inl (get_or-replicate 509 i empty_slot)

init_standard : (i : ℕ) → i ≤ 2 → 0 < (slot_at init i).ref_count
unfolding init
init_standard zero h = omega arith
init_standard (suc zero) h = omega arith
init_standard (suc (suc zero)) h = omega arith
init_standard (suc (suc (suc i))) h = absurd (omega arith)

pub init-IsValid : IsValid init
init-IsValid = record { size = size_of_init; sound = init-IsSound; standard = init_standard }
  where
    size_of_init : length init ≡ handle_table_size
    size_of_init = unfold init in refl

-- Replacing one slot by a sound one keeps the table valid.
pub set-IsValid :
    (t : Table) (i : ℕ) (s : Slot)
    → IsValid t
    → i < handle_table_size
    → IsSound i s
    → (i ≤ 2 → 0 < s.ref_count)
    → IsValid (set t i s)
set-IsValid t i s v h ok up = record {
  size = length-set t i s ∙ v.size;
  sound = λ k. elim (Bool-cases (i == k)) [
    | inl e ↦ ground (arith, get_or-set t i k s empty_slot, v.size)
    | inr ne ↦ rw (get_or-set t i k s empty_slot (omega (arith, v.size)), ne) (v.sound k)
  ];
  standard = λ k hk. ground (arith, get_or-set t i k s empty_slot, v.size, v.standard k, up);
}

pub alloc-IsValid : (t : Table) (type object : ℕ) → IsValid t → IsValid (alloc type object t).1
unfolding alloc
alloc-IsValid t type object v = elim (Bool-cases (find_free 509 3 t == 0)) [
  | inl full ↦ rw full v
  | inr hit ↦
      let found = find_free_hit 509 3 t (ground arith) in
      rw hit (
        set-IsValid t (find_free 509 3 t) _ v (omega (arith, found)) (inr (omega arith))
          (λ low. omega arith))
]

pub add_ref-IsValid : (t : Table) (handle : ℕ) → IsValid t → IsValid (add_ref t handle)
unfolding add_ref
add_ref-IsValid t handle v = elim (Bool-cases (leb handle_table_size handle)) [
  | inl past ↦ rw past v
  | inr inside ↦ rw inside (
      set-IsValid t handle _ v (ground arith) (ground (arith, v.sound handle))
        (λ low. ground (arith, v.standard handle)))
]

pub free-IsValid : (t : Table) (handle : ℕ) → IsValid t → IsValid (free t handle)
unfolding free
free-IsValid t handle v = elim (Bool-cases (leb handle 2)) [
  | inl low ↦ rw low v
  | inr high ↦ elim (Bool-cases (leb handle_table_size handle)) [
    | inl past ↦ rw (high, past) v
    | inr inside ↦
        rw (high, inside)
          (set-IsValid t handle _ v (ground arith) (ground (arith, v.sound handle))
            (λ low. ground arith))
  ]
]
