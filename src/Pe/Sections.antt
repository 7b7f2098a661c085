-- ===== src/Pe/Sections.antt =====
-- The section table of src/pe_headers.c and the RVA translation of src/pe_priv.h. An `int` is its
-- bit pattern, so a negative one is at least 2 ^ 31 and -1 is 2 ^ 32 - 1.
pub mod Bounds
use my_wine.Prelude.{
  ℕ, zero, suc, ◌+◌, ◌-◌, ◌*◌, ◌/◌, ◌%◌, ◌^◌, Bool, true, false, not, ◌&&◌, ◌||◌, Option, none,
  some, ltb, leb, ◌==◌, if◌then◌else◌,
}
use my_wine.Pe.Memory.{Bytes, read}
use my_wine.Pe.{NtHeaders, safe_ptr_at, section_count, optional_header_size, size_of_headers}

-- A cast to `int`.
abbrev pub to_int : ℕ → ℕ
to_int n = n % 2 ^ 32

abbrev pub is_negative : ℕ → Bool
is_negative n = leb (2 ^ 31) n

abbrev pub minus_one : ℕ
minus_one = 2 ^ 32 - 1

-- Fields of the i-th `IMAGE_SECTION_HEADER` of the table at `table`.
abbrev pub virtual_size : Bytes → ℕ → ℕ → ℕ
virtual_size file table i = read 4 file (table + 40 * i + 8)

abbrev pub virtual_address : Bytes → ℕ → ℕ → ℕ
virtual_address file table i = read 4 file (table + 40 * i + 12)

abbrev pub size_of_raw_data : Bytes → ℕ → ℕ → ℕ
size_of_raw_data file table i = read 4 file (table + 40 * i + 16)

abbrev pub pointer_to_raw_data : Bytes → ℕ → ℕ → ℕ
pointer_to_raw_data file table i = read 4 file (table + 40 * i + 20)

-- `sec_size` of rva_to_offset
unfoldable pub section_size : Bytes → ℕ → ℕ → ℕ
section_size file table i =
    let vsize = virtual_size file table i in
    let raw = size_of_raw_data file table i in if (vsize == 0) || ltb vsize raw then raw else vsize

-- The loop of rva_to_offset over the `rounds` sections from number `i` on, and what follows it.
unfoldable pub rva_to_offset_from : NtHeaders → Bytes → ℕ → ℕ → ℕ → ℕ → ℕ → ℕ
rva_to_offset_from nt file table rva file_size zero i =
    if ltb rva (size_of_headers nt) then to_int rva else minus_one
rva_to_offset_from nt file table rva file_size (suc rounds) i =
    let start = virtual_address file table i in
    let size = section_size file table i in
    let offset = pointer_to_raw_data file table i + (rva - start) in
    let rest = rva_to_offset_from nt file table rva file_size rounds (i + 1) in
    if ltb (2 ^ 32 - 1 - start) size
    then minus_one
    else if leb start rva && ltb rva (start + size)
    then if leb offset file_size then to_int offset else minus_one
    else rest

-- rva_to_offset
unfoldable pub rva_to_offset : NtHeaders → Bytes → ℕ → ℕ → ℕ → ℕ
unfolding rva_to_offset_from
rva_to_offset nt file table rva file_size =
    rva_to_offset_from nt file table rva file_size (section_count nt) 0

-- rva_range_to_offset
unfoldable pub rva_range_to_offset : NtHeaders → Bytes → ℕ → ℕ → ℕ → ℕ → ℕ
rva_range_to_offset nt file table rva len file_size =
    let off = rva_to_offset nt file table rva file_size in
    if is_negative off
    then minus_one
    else if ltb file_size len || ltb (file_size - len) off
    then minus_one
    else off

-- compute_section_table_offset; `e_lfanew` is an argument.
unfoldable pub section_table_offset : ℕ → NtHeaders → ℕ
section_table_offset pe_off nt = to_int (pe_off + 4 + 20 + optional_header_size nt)

-- The loop of parse_sections that validates the raw data of each section. A `size_t` has `width` bits,
-- 64 or 32 by the build, so the sum of two fields may wrap around.
unfoldable pub raw_data_valid : ℕ → Bytes → ℕ → ℕ → ℕ → ℕ → Bool
raw_data_valid width file file_size table zero i = true
raw_data_valid width file file_size table (suc rounds) i =
    let rest = raw_data_valid width file file_size table rounds (i + 1) in
    let raw_end = (pointer_to_raw_data file table i + size_of_raw_data file table i) % 2 ^ width in
    if not (pointer_to_raw_data file table i == 0) && ltb file_size raw_end then false else rest

-- parse_sections: where the table is, and how many sections it has. The product of its first test
-- cannot overflow: a count has 16 bits.
unfoldable pub parse_sections : ℕ → Bytes → ℕ → NtHeaders → Option (ℕ × ℕ)
parse_sections width file file_size nt =
    let num = section_count nt in
    let table_size = num * 40 in
    elim (safe_ptr_at 0 64 file_size) [
      | none ↦ none
      | some dos ↦
          let offset = section_table_offset (read 4 file (dos + 60)) nt in
          if not (read 2 file dos == 0x5a4d)
          then none
          else if is_negative offset || ltb file_size (offset + table_size)
          then none
          else elim (safe_ptr_at offset table_size file_size) [
            | none ↦ none
            | some sec ↦
                if raw_data_valid width file file_size sec num 0 then some (sec, num) else none
          ]
    ]
