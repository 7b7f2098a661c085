-- ===== src/Pe/Relocations/Moves.antt =====
-- Which address an entry of src/loader/relocations.c moves, by its type.
use my_wine.Prelude.{
  ℕ, ◌+◌, ◌-◌, ◌/◌, ◌%◌, ◌^◌, ◌≤◌, ◌<◌, ◌≡◌, refl, ap, sym, ◌∙◌, arith, inl, inr, ◌⊎◌, ◌||◌, some,
  Option-cases, Bool-cases, ltb, ◌==◌, if◌then◌else◌,
}
use my_wine.Pe.Memory.{Bytes, IsBytes, read, write, span, write_outside, read-write}
use my_wine.Pe.{NtHeaders, PeType, pe_type_32, pe_type_64, rva_to_ptr}
use my_wine.Pe.Relocations.{patch, relocate_entry32, relocate_entry64, relocate_entry}
use my_wine.Pe.Relocations.Entry.{
  rva_to_ptr_inside, patch_found, patch_missing, relocate_entry-relocate_entry,
}

-- What an entry of a type is about, by the PE format: how many bytes its target has, and how many low
-- bits of the address they leave out.
abbrev pub target_of : PeType → ℕ → ℕ × ℕ
target_of pe_type_32 type =
    if (type == 4) || (type == 3)
    then (4, 0)
    else if (type == 1) || (type == 5)
    then (2, 16)
    else if type == 2
    then (2, 0)
    else (0, 0)
target_of pe_type_64 type = if type == 10 then (8, 0) else (0, 0)

-- The target held its part of the address `v`, and then holds its part of the address moved.
abbrev pub Moves : ℕ × ℕ → ℕ → ℕ → ℕ → Bytes → Bytes → Type 0
Moves target delta v rva m m' =
    (read target.0 m' rva ≡ (v + delta) / 2 ^ target.1 % span target.0)
    × ((i : ℕ) → (i < rva) ⊎ (rva + target.0 ≤ i) → m' i ≡ m i)

Moves-none : (delta v rva : ℕ) (m m' : Bytes) → m ≡ m' → Moves (0, 0) delta v rva m m'
unfolding read span
Moves-none delta v rva m m' same = (omega arith, λ i out. ap (λ f. f i) (sym same))

patch-Moves :
    (n shift : ℕ) (nt : NtHeaders) (amount delta v rva : ℕ) (m m' : Bytes)
    → ((v / 2 ^ shift % span n + amount) % span n ≡ (v + delta) / 2 ^ shift % span n)
    → ((v + delta) / 2 ^ shift % span n < span n)
    → read n m rva ≡ v / 2 ^ shift % span n
    → patch n nt amount rva m ≡ some m'
    → Moves (n, shift) delta v rva m m'
patch-Moves n shift nt amount delta v rva m m' sum small held e =
    elim (Option-cases (rva_to_ptr nt rva n)) [
      | inl out ↦ absurd (ground (arith, patch_missing n nt amount rva m out))
      | inr (p, here) ↦
          let at_rva = (rva_to_ptr_inside nt rva n p here).0 in
          let x = (v + delta) / 2 ^ shift % span n in
          let value : (read n m p + amount) % span n ≡ x =
            ap (λ a. (read n m a + amount) % span n) at_rva
            ∙ ap (λ w. (w + amount) % span n) held
            ∙ sum in
          let done : m' ≡ write n m p ((read n m p + amount) % span n) =
            ground (arith, patch_found n nt amount rva p m here) in
          let written : m' ≡ write n m rva x =
            done ∙ ap (λ a. write n m p a) value ∙ ap (λ a. write n m a x) at_rva in
          rw written (read-write n m rva x small, λ i out. write_outside n m rva x i out)
    ]

-- The four ways in which an entry moves its target.
shifts_full :
    (nt : NtHeaders) (delta v rva : ℕ) (m m' : Bytes)
    → read 4 m rva ≡ v / 2 ^ 0 % span 4
    → patch 4 nt (delta % 2 ^ 32) rva m ≡ some m'
    → Moves (4, 0) delta v rva m m'
shifts_full nt delta v rva m m' held e =
    patch-Moves 4 0 nt (delta % 2 ^ 32) delta v rva m m' (unfold span in omega arith)
      (unfold span in omega arith) held e

shifts_high :
    (nt : NtHeaders) (delta v rva : ℕ) (m m' : Bytes)
    → delta % 2 ^ 16 ≡ 0
    → read 2 m rva ≡ v / 2 ^ 16 % span 2
    → patch 2 nt (delta / 2 ^ 16 % 2 ^ 16) rva m ≡ some m'
    → Moves (2, 16) delta v rva m m'
shifts_high nt delta v rva m m' aligned held e =
    patch-Moves 2 16 nt (delta / 2 ^ 16 % 2 ^ 16) delta v rva m m' (unfold span in omega arith)
      (unfold span in omega arith) held e

shifts_low :
    (nt : NtHeaders) (delta v rva : ℕ) (m m' : Bytes)
    → read 2 m rva ≡ v / 2 ^ 0 % span 2
    → patch 2 nt (delta % 2 ^ 16) rva m ≡ some m'
    → Moves (2, 0) delta v rva m m'
shifts_low nt delta v rva m m' held e =
    patch-Moves 2 0 nt (delta % 2 ^ 16) delta v rva m m' (unfold span in omega arith)
      (unfold span in omega arith) held e

shifts_wide :
    (nt : NtHeaders) (delta v rva : ℕ) (m m' : Bytes)
    → read 8 m rva ≡ v / 2 ^ 0 % span 8
    → patch 8 nt delta rva m ≡ some m'
    → Moves (8, 0) delta v rva m m'
shifts_wide nt delta v rva m m' held e =
    patch-Moves 8 0 nt delta delta v rva m m' (unfold span in omega arith)
      (unfold span in omega arith) held e

relocate_entry32-Moves :
    (nt : NtHeaders) (delta va type offset v : ℕ) (m m' : Bytes)
    → delta % 2 ^ 16 ≡ 0
    → read (target_of pe_type_32 type).0 m (va + offset)
      ≡ v / 2 ^ (target_of pe_type_32 type).1 % span (target_of pe_type_32 type).0
    → relocate_entry32 nt delta va type offset m ≡ some m'
    → Moves (target_of pe_type_32 type) delta v (va + offset) m m'
unfolding relocate_entry32
relocate_entry32-Moves nt delta va type offset v m m' aligned held e =
    elim (Bool-cases (ltb (2 ^ 32 - 1 - offset) va)) [
      | inl out ↦ absurd (ground (arith, e))
      | inr fits ↦ elim (Bool-cases ((type == 4) || (type == 3))) [
        | inl full ↦
            rw full
              (shifts_full nt delta v (va + offset) m m' (rw full at held) (rw (fits, full) at e))
        | inr narrow ↦ elim (Bool-cases ((type == 1) || (type == 5))) [
          | inl high ↦
              rw (narrow, high)
                (shifts_high nt delta v (va + offset) m m' aligned (rw (narrow, high) at held)
                  (rw (fits, narrow, high) at e))
          | inr other ↦ elim (Bool-cases (type == 2)) [
            | inl low ↦
                rw (narrow, other, low)
                  (shifts_low nt delta v (va + offset) m m' (rw (narrow, other, low) at held)
                    (rw (fits, narrow, other, low) at e))
            | inr none_of ↦
                let same : some m ≡ some m' = rw (fits, narrow, other, none_of) at e in
                rw (narrow, other, none_of) (Moves-none delta v (va + offset) m m' (cc))
          ]
        ]
      ]
    ]

relocate_entry64-Moves :
    (nt : NtHeaders) (delta va type offset v : ℕ) (m m' : Bytes)
    → read (target_of pe_type_64 type).0 m (va + offset)
      ≡ v / 2 ^ (target_of pe_type_64 type).1 % span (target_of pe_type_64 type).0
    → relocate_entry64 nt delta va type offset m ≡ some m'
    → Moves (target_of pe_type_64 type) delta v (va + offset) m m'
unfolding relocate_entry64
relocate_entry64-Moves nt delta va type offset v m m' held e = elim (Bool-cases (type == 10)) [
  | inl wide ↦
      let patched : patch 8 nt delta (va + offset) m ≡ some m' = ground (arith, e) in
      rw wide (shifts_wide nt delta v (va + offset) m m' (rw wide at held) patched)
  | inr none_of ↦
      let same : some m ≡ some m' = rw none_of at e in
      rw none_of (Moves-none delta v (va + offset) m m' (cc))
]

target_of-padding : (p : PeType) (type : ℕ) → type ≡ 0 → target_of p type ≡ (0, 0)
target_of-padding pe_type_32 type h = rw h refl
target_of-padding pe_type_64 type h = rw h refl

PeType-cases : (p : PeType) → (p ≡ pe_type_32) ⊎ (p ≡ pe_type_64)
PeType-cases pe_type_32 = inl refl
PeType-cases pe_type_64 = inr refl

relocate_entry-Moves :
    (nt : NtHeaders) (delta va entry v : ℕ) (m m' : Bytes)
    → delta % 2 ^ 16 ≡ 0
    → read (target_of nt.pe_type (entry / 4096 % 16)).0 m (va + entry % 4096)
      ≡ v
        / 2 ^ (target_of nt.pe_type (entry / 4096 % 16)).1
        % span (target_of nt.pe_type (entry / 4096 % 16)).0
    → relocate_entry nt delta va entry m ≡ some m'
    → Moves (target_of nt.pe_type (entry / 4096 % 16)) delta v (va + entry % 4096) m m'
unfolding relocate_entry
relocate_entry-Moves nt delta va entry v m m' aligned held e =
    let type = entry / 4096 % 16 in
    let offset = entry % 4096 in
    elim (Bool-cases (type == 0)) [
      | inl padding ↦
          let same : some m ≡ some m' = rw padding at e in
          let z : type ≡ 0 = ground (arith, padding) in
          rw (target_of-padding nt.pe_type type z) (Moves-none delta v (va + offset) m m' (cc))
      | inr real ↦ elim (PeType-cases nt.pe_type) [
        | inl narrow ↦ rw narrow (
            relocate_entry32-Moves nt delta va type offset v m m' aligned (rw narrow at held)
              (rw (real, narrow) at e))
        | inr wide ↦ rw wide (
            relocate_entry64-Moves nt delta va type offset v m m' (rw wide at held)
              (rw (real, wide) at e))
      ]
    ]

-- On a memory of bytes, with a 64-bit displacement that is a multiple of 64 KiB: where the target of
-- an entry holds its part of an address, all of it, its low or its high half by the entry's type, an
-- entry that is applied leaves the same part of the displaced address there, changes no other byte,
-- and is undone by the same entry with the opposite displacement.
pub relocate_entry_displaces :
    (nt : NtHeaders) (delta va entry v : ℕ) (m m' : Bytes)
    → IsBytes m
    → delta < 2 ^ 64
    → delta % 2 ^ 16 ≡ 0
    → read (target_of nt.pe_type (entry / 4096 % 16)).0 m (va + entry % 4096)
      ≡ v
        / 2 ^ (target_of nt.pe_type (entry / 4096 % 16)).1
        % span (target_of nt.pe_type (entry / 4096 % 16)).0
    → relocate_entry nt delta va entry m ≡ some m'
    → Moves (target_of nt.pe_type (entry / 4096 % 16)) delta v (va + entry % 4096) m m'
      × (relocate_entry nt ((2 ^ 64 - delta) % 2 ^ 64) va entry m' ≡ some m)
relocate_entry_displaces nt delta va entry v m m' bytes small aligned held e = (
  relocate_entry-Moves nt delta va entry v m m' aligned held e,
  relocate_entry-relocate_entry nt delta va entry m m' bytes small aligned e,
)
