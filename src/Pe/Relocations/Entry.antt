-- ===== src/Pe/Relocations/Entry.antt =====
-- One entry of the loops of src/loader/relocations.c.
use my_wine.Prelude.{
  ℕ, ◌+◌, ◌-◌, ◌/◌, ◌%◌, ◌^◌, ◌≤◌, ◌<◌, ◌≡◌, ap, ◌∙◌, arith, inl, inr, none, some, Option-cases,
}
use mathlib.Core.Path.{fun_ext}
use my_wine.Pe.Memory.{
  Bytes, IsBytes, read, write, span, write_outside, read-write, write-write, write-read,
  read-lt-span,
}
use my_wine.Pe.{NtHeaders, size_of_image, rva_to_ptr, rva_range_is_valid}
use my_wine.Pe.Relocations.{patch, relocate_entry32, relocate_entry64, relocate_entry}

-- A pointer into the image is the RVA, with its range inside.
pub rva_to_ptr_inside :
    (nt : NtHeaders) (rva len p : ℕ)
    → rva_to_ptr nt rva len ≡ some p
    → (p ≡ rva) × (p + len ≤ size_of_image nt)
unfolding rva_to_ptr rva_range_is_valid
rva_to_ptr_inside nt rva len p e = ground arith

-- Nothing behind the image changes.
abbrev pub Confined : ℕ → Bytes → Bytes → Type 0
Confined size m m' = (i : ℕ) → size ≤ i → m' i ≡ m i

pub patch_found :
    (n : ℕ) (nt : NtHeaders) (amount rva p : ℕ) (m : Bytes)
    → rva_to_ptr nt rva n ≡ some p
    → patch n nt amount rva m ≡ some (write n m p ((read n m p + amount) % span n))
unfolding patch
patch_found n nt amount rva p m here = ground (arith, here)

pub patch_missing :
    (n : ℕ) (nt : NtHeaders) (amount rva : ℕ) (m : Bytes)
    → rva_to_ptr nt rva n ≡ none
    → patch n nt amount rva m ≡ none
unfolding patch
patch_missing n nt amount rva m out = ground (arith, out)

patch-Confined :
    (n : ℕ) (nt : NtHeaders) (amount rva : ℕ) (m m' : Bytes) (i : ℕ)
    → patch n nt amount rva m ≡ some m'
    → size_of_image nt ≤ i
    → m' i ≡ m i
patch-Confined n nt amount rva m m' i e far = elim (Option-cases (rva_to_ptr nt rva n)) [
  | inl out ↦ absurd (ground (arith, patch_missing n nt amount rva m out))
  | inr (p, here) ↦
      let bound = rva_to_ptr_inside nt rva n p here in
      let done : m' ≡ write n m p ((read n m p + amount) % span n) =
        ground (arith, patch_found n nt amount rva p m here) in
      rw done (write_outside n m p ((read n m p + amount) % span n) i (inr (omega (arith, bound))))
]

-- An entry that is applied changes nothing behind the image.
pub relocate_entry-Confined :
    (nt : NtHeaders) (delta va entry : ℕ) (m m' : Bytes)
    → relocate_entry nt delta va entry m ≡ some m'
    → Confined (size_of_image nt) m m'
unfolding relocate_entry relocate_entry32 relocate_entry64
relocate_entry-Confined nt delta va entry m m' e i far =
    let rva = va + entry % 4096 in
    ground (
      arith,
      patch-Confined 4 nt (delta % 2 ^ 32) rva m m' i,
      patch-Confined 2 nt (delta / 2 ^ 16 % 2 ^ 16) rva m m' i,
      patch-Confined 2 nt (delta % 2 ^ 16) rva m m' i,
      patch-Confined 8 nt delta rva m m' i,
    )

-- Adding an amount and then one that makes it up to the modulus restores the image.
patch-patch :
    (n : ℕ) (nt : NtHeaders) (amount back rva : ℕ) (m m' : Bytes)
    → IsBytes m
    → ((v : ℕ)
        → v < span n
        → ((v + amount) % span n < span n) × (((v + amount) % span n + back) % span n ≡ v))
    → patch n nt amount rva m ≡ some m'
    → patch n nt back rva m' ≡ some m
patch-patch n nt amount back rva m m' bytes undoes e = elim (Option-cases (rva_to_ptr nt rva n)) [
  | inl out ↦ absurd (ground (arith, patch_missing n nt amount rva m out))
  | inr (p, here) ↦
      let v = read n m p in
      let x = (v + amount) % span n in
      let u = undoes v (read-lt-span n m p bytes) in
      let done : m' ≡ write n m p x = ground (arith, patch_found n nt amount rva p m here) in
      let again : read n (write n m p x) p ≡ x = read-write n m p x u.0 in
      let restored : write n (write n m p x) p v ≡ m =
        fun_ext (λ i. write-write n m p x v i ∙ write-read n m p i bytes) in
      patch_found n nt back rva p m' here ∙ rw (done, again, u.1) (ap some restored)
]

-- On a memory of bytes, an entry that was applied with a 64-bit displacement that is a multiple of
-- 64 KiB is undone by the same entry with the opposite displacement.
pub relocate_entry-relocate_entry :
    (nt : NtHeaders) (delta va entry : ℕ) (m m' : Bytes)
    → IsBytes m
    → delta < 2 ^ 64
    → delta % 2 ^ 16 ≡ 0
    → relocate_entry nt delta va entry m ≡ some m'
    → relocate_entry nt ((2 ^ 64 - delta) % 2 ^ 64) va entry m' ≡ some m
unfolding relocate_entry relocate_entry32 relocate_entry64
relocate_entry-relocate_entry nt delta va entry m m' bytes small aligned e =
    let rva = va + entry % 4096 in
    let back = (2 ^ 64 - delta) % 2 ^ 64 in
    ground (
      arith,
      patch-patch 4 nt (delta % 2 ^ 32) (back % 2 ^ 32) rva m m' bytes
          (λ v h. unfold span in omega arith),
      patch-patch 2 nt (delta / 2 ^ 16 % 2 ^ 16) (back / 2 ^ 16 % 2 ^ 16) rva m m' bytes
          (λ v h. unfold span in omega arith),
      patch-patch 2 nt (delta % 2 ^ 16) (back % 2 ^ 16) rva m m' bytes
          (λ v h. unfold span in omega arith),
      patch-patch 8 nt delta back rva m m' bytes (λ v h. unfold span in omega arith),
    )
