-- ===== src/Handles/Scan.antt =====
-- The search of wine_handle_alloc, over any number of rounds.
use my_wine.Prelude.{ℕ, zero, suc, ◌+◌, ◌≤◌, ◌<◌, ◌≡◌, ◌≢◌, refl, arith, Bool-cases, ◌==◌, inl, inr}
use my_wine.Handles.{Table, slot_at, find_free}

-- A hit lies in the range that was searched, and is free.
pub find_free_hit :
    (rounds i : ℕ) (t : Table)
    → find_free rounds i t ≢ 0
    → (i ≤ find_free rounds i t)
      × (find_free rounds i t < i + rounds)
      × ((slot_at t (find_free rounds i t)).ref_count ≡ 0)
unfolding find_free
find_free_hit zero i t h = absurd (h refl)
find_free_hit (suc rounds) i t h = elim (Bool-cases ((slot_at t i).ref_count == 0)) [
  | inl free ↦ rw free (omega arith, omega arith, ground arith)
  | inr taken ↦
      let ih = find_free_hit rounds (i + 1) t (λ z. h (rw taken z)) in
      rw taken (omega (arith, ih.0), omega (arith, ih.1), ih.2)
]

-- Everything that the search passes is taken.
pub find_free_passed :
    (rounds i : ℕ) (t : Table) (k : ℕ)
    → 0 < i
    → i ≤ k
    → k < i + rounds
    → (find_free rounds i t ≢ 0 → k < find_free rounds i t)
    → (slot_at t k).ref_count ≢ 0
unfolding find_free
find_free_passed zero i t k p a b c = absurd (omega arith)
find_free_passed (suc rounds) i t k p a b c = elim (Bool-cases ((slot_at t i).ref_count == 0)) [
  | inl free ↦ let c' : i ≢ 0 → k < i = rw free at c in absurd (omega (arith, c' (omega arith)))
  | inr taken ↦ elim (Bool-cases (i == k)) [
    | inl here ↦ ground arith
    | inr other ↦
        find_free_passed rounds (i + 1) t k (omega arith) (ground arith) (omega arith)
          (rw taken at c)
  ]
]
