-- ===== src/Pe/Sections/Bounds.antt =====
-- What the translation of RVAs and the parser of the section table promise to their callers.
use my_wine.Prelude.{
  ℕ, zero, suc, ◌+◌, ◌-◌, ◌*◌, ◌%◌, ◌^◌, ◌≤◌, ◌<◌, ◌≡◌, arith, inl, inr, ◌⊎◌, true, some,
  Bool-cases, ◌==◌,
}
use my_wine.Pe.Memory.{Bytes, IsBytes, span, read-lt-span}
use my_wine.Pe.{NtHeaders, safe_ptr_at, section_count}
use my_wine.Pe.Sections.{
  minus_one, virtual_address, size_of_raw_data, pointer_to_raw_data, section_size,
  rva_to_offset_from, rva_to_offset, rva_range_to_offset, raw_data_valid, parse_sections,
}

-- The file offset of an RVA range is -1, or the whole range from it on lies in the file, at an offset
-- that is not negative.
pub rva_range_to_offset_in_file :
    (nt : NtHeaders) (file : Bytes) (table rva len file_size : ℕ)
    → let off = rva_range_to_offset nt file table rva len file_size in
      (off ≡ minus_one) ⊎ ((off < 2 ^ 31) × (off + len ≤ file_size))
unfolding rva_range_to_offset
rva_range_to_offset_in_file nt file table rva len file_size = ground arith

-- What holds of the first section `c` that contains an RVA.
record Covers (file : Bytes) (table rva file_size c : ℕ) : Type 0 where
  starts : virtual_address file table c ≤ rva
  ends : rva < virtual_address file table c + section_size file table c
  no_wrap : virtual_address file table c + section_size file table c < 2 ^ 32
  in_file : pointer_to_raw_data file table c + (rva - virtual_address file table c) ≤ file_size
  small : file_size < 2 ^ 31

-- A section of the 32-bit address space that does not contain an RVA, on whichever side of it.
abbrev pub Misses : Bytes → ℕ → ℕ → ℕ → Type 0
Misses file table rva j =
    (virtual_address file table j + section_size file table j < 2 ^ 32)
    × ((rva < virtual_address file table j)
        ⊎ (virtual_address file table j + section_size file table j ≤ rva))

first_covering :
    (nt : NtHeaders) (file : Bytes) (table rva file_size rounds i c : ℕ)
    → i ≤ c
    → c < i + rounds
    → ((j : ℕ) → i ≤ j → j < c → Misses file table rva j)
    → rva < 2 ^ 32
    → Covers file table rva file_size c
    → rva_to_offset_from nt file table rva file_size rounds i
      ≡ pointer_to_raw_data file table c + (rva - virtual_address file table c)
unfolding rva_to_offset_from
first_covering nt file table rva file_size zero i c lo hi before bound v = absurd (omega arith)
first_covering nt file table rva file_size (suc rounds) i c lo hi before bound v =
    elim (Bool-cases (i == c)) [
      | inl here ↦ ground arith
      | inr other ↦
          let rest =
            first_covering nt file table rva file_size rounds (i + 1) c (ground arith) (omega arith)
              (λ j a b. before j (omega arith) b) bound v in
          ground (arith, rest, before i (omega arith))
    ]

-- A 32-bit RVA is translated by its distance from the start of the first section that contains it:
-- where no section up to that one wraps around, the offset is in the file, and the file is below
-- 2 GiB.
pub rva_to_offset_first :
    (nt : NtHeaders) (file : Bytes) (table rva file_size c : ℕ)
    → c < section_count nt
    → ((j : ℕ) → j < c → Misses file table rva j)
    → rva < 2 ^ 32
    → virtual_address file table c ≤ rva
    → rva < virtual_address file table c + section_size file table c
    → virtual_address file table c + section_size file table c < 2 ^ 32
    → pointer_to_raw_data file table c + (rva - virtual_address file table c) ≤ file_size
    → file_size < 2 ^ 31
    → rva_to_offset nt file table rva file_size
      ≡ pointer_to_raw_data file table c + (rva - virtual_address file table c)
unfolding rva_to_offset
rva_to_offset_first nt file table rva file_size c inside before bound starts ends no_wrap in_file
      small =
    first_covering nt file table rva file_size (section_count nt) 0 c (omega arith) (omega arith)
      (λ j a b. before j b) bound
      (record { starts = starts; ends = ends; no_wrap = no_wrap; in_file = in_file; small = small })

raw_data_valid_all :
    (width : ℕ) (file : Bytes) (file_size table rounds i j : ℕ)
    → raw_data_valid width file file_size table rounds i ≡ true
    → i ≤ j
    → j < i + rounds
    → (pointer_to_raw_data file table j ≡ 0)
      ⊎ ((pointer_to_raw_data file table j + size_of_raw_data file table j) % 2 ^ width ≤ file_size)
unfolding raw_data_valid
raw_data_valid_all width file file_size table zero i j e lo hi = absurd (omega arith)
raw_data_valid_all width file file_size table (suc rounds) i j e lo hi =
    elim (Bool-cases (i == j)) [
      | inl here ↦ ground arith
      | inr other ↦
          raw_data_valid_all width file file_size table rounds (i + 1) j (ground arith)
            (ground arith) (omega arith)
    ]

-- If the 64-bit build accepts the section table of a file, the table is inside the file, it has as
-- many sections as the header says, and each section's raw data, if it has any, is inside the file.
pub parse_sections_sound :
    (file : Bytes) (file_size : ℕ) (nt : NtHeaders) (table num : ℕ)
    → IsBytes file
    → parse_sections 64 file file_size nt ≡ some (table, num)
    → (num ≡ section_count nt)
      × (table + 40 * num ≤ file_size)
      × ((j : ℕ)
          → j < num
          → (pointer_to_raw_data file table j ≡ 0)
            ⊎ (pointer_to_raw_data file table j + size_of_raw_data file table j ≤ file_size))
unfolding parse_sections safe_ptr_at span
parse_sections_sound file file_size nt table num bytes e = (
  ground arith,
  ground arith,
  λ j h.
      let pointer_small = read-lt-span 4 file (table + 40 * j + 20) bytes in
      let size_small = read-lt-span 4 file (table + 40 * j + 16) bytes in
      let no_wrap : (pointer_to_raw_data file table j + size_of_raw_data file table j) % 2 ^ 64
          ≡ pointer_to_raw_data file table j + size_of_raw_data file table j =
        omega (arith, pointer_small, size_small) in
      ground (arith, no_wrap, raw_data_valid_all 64 file file_size table (section_count nt) 0 j),
)
