-- ===== src/Tests/PeTests.antt =====
-- The PE headers and the section table of src/pe_headers.c on a file with one section.
use my_wine.Prelude.{
  ℕ, zero, suc, ◌+◌, ◌-◌, ◌*◌, ◌^◌, ◌≤◌, ◌<◌, ◌≡◌, refl, arith, ◌⊎◌, inl, none, some,
}
use my_wine.Pe.Memory.{Bytes, IsBytes, read, write, write-IsBytes}
use my_wine.Pe.{
  NtHeaders, pe_type_32, field_of, safe_ptr_at, section_count, optional_header_size, machine,
  nt_branch, nt_from_file_header, parse_nt_headers,
}
use my_wine.Pe.Headers.{nt_size, optional_size, parse_nt_headers_sound}
use my_wine.Pe.Sections.{
  virtual_address, size_of_raw_data, pointer_to_raw_data, section_size, rva_to_offset,
  section_table_offset, raw_data_valid, parse_sections,
}
use my_wine.Pe.Sections.Bounds.{Misses, rva_to_offset_first, parse_sections_sound}

-- The DOS header at 0, the PE32 headers at 64, the section table at 312, raw data at 352.
abbrev dos : Bytes
dos = write 2 (write 4 (λ i. 0) 60 64) 0 0x5a4d

abbrev headers : Bytes
headers =
    write 4 (write 2 (write 2 (write 2 (write 2 dos 88 0x10b) 84 224) 70 1) 68 0x14c) 64 0x4550

abbrev file : Bytes
file = write 4 (write 4 (write 4 (write 4 headers 332 352) 328 32) 324 4096) 320 32

abbrev nt : NtHeaders
nt = record { pe_type = pe_type_32; raw = λ i. file (64 + i) }

accepted : parse_nt_headers file 384 64 ≡ some nt
unfolding parse_nt_headers nt_from_file_header nt_branch safe_ptr_at read write
accepted = refl

parse_nt_headers_sound_example :
    (read 4 file 64 ≡ 0x4550)
    × (64 + nt_size nt.pe_type ≤ 384)
    × (nt.raw ≡ (λ i. file (64 + i)))
    × ((machine nt ≡ 0x8664) ⊎ (machine nt ≡ 0x14c))
    × (optional_size nt.pe_type ≤ optional_header_size nt)
parse_nt_headers_sound_example = parse_nt_headers_sound file 384 64 nt accepted

sections : parse_sections 64 file 384 nt ≡ some (312, 1)
unfolding parse_sections section_count field_of section_table_offset optional_header_size
    safe_ptr_at raw_data_valid read write
sections = refl

file-IsBytes : IsBytes file
file-IsBytes = write-IsBytes 4 _ 320 32 (
    write-IsBytes 4 _ 324 4096 (
      write-IsBytes 4 _ 328 32 (
        write-IsBytes 4 _ 332 352 (
          write-IsBytes 4 _ 64 0x4550 (
            write-IsBytes 2 _ 68 0x14c (
              write-IsBytes 2 _ 70 1 (
                write-IsBytes 2 _ 84 224 (
                  write-IsBytes 2 _ 88 0x10b (
                    write-IsBytes 2 _ 0 0x5a4d (write-IsBytes 4 _ 60 64 (λ i. omega arith)))))))))))

-- Raw data that starts at 2 ^ 32 - 16 is 32 bytes long to a sum that wraps around to 16: it is
-- accepted where `size_t` has 32 bits, and refused where it has 64.
abbrev wrapping_data : Bytes
wrapping_data = write 4 file 332 (2 ^ 32 - 16)

wrapping_data_32 : parse_sections 32 wrapping_data 384 nt ≡ some (312, 1)
unfolding parse_sections section_count field_of section_table_offset optional_header_size
    safe_ptr_at raw_data_valid read write
wrapping_data_32 = refl

wrapping_data_64 : parse_sections 64 wrapping_data 384 nt ≡ none
unfolding parse_sections section_count field_of section_table_offset optional_header_size
    safe_ptr_at raw_data_valid read write
wrapping_data_64 = refl

parse_sections_sound_example :
    (1 ≡ section_count nt)
    × (312 + 40 * 1 ≤ 384)
    × ((j : ℕ)
        → j < 1
        → (pointer_to_raw_data file 312 j ≡ 0)
          ⊎ (pointer_to_raw_data file 312 j + size_of_raw_data file 312 j ≤ 384))
parse_sections_sound_example = parse_sections_sound file 384 nt 312 1 file-IsBytes sections

-- A second section in front of the first one in memory, behind it in the table.
abbrev two_sections : Bytes
two_sections =
    write 4
      (write 4 (write 4 (write 4 (write 2 (write 4 file 324 8192) 70 2) 372 320) 368 32) 364 4096)
      360 32

abbrev nt_two : NtHeaders
nt_two = record { pe_type = pe_type_32; raw = λ i. two_sections (64 + i) }

section_count_two : section_count nt_two ≡ 2
unfolding section_count field_of read write
section_count_two = refl

first_start : virtual_address two_sections 312 0 ≡ 8192
unfolding read write
first_start = refl

first_length : section_size two_sections 312 0 ≡ 32
unfolding section_size read write
first_length = refl

section_start : virtual_address two_sections 312 1 ≡ 4096
unfolding read write
section_start = refl

section_length : section_size two_sections 312 1 ≡ 32
unfolding section_size read write
section_length = refl

section_data : pointer_to_raw_data two_sections 312 1 ≡ 320
unfolding read write
section_data = refl

above_the_rva : (j : ℕ) → j < 1 → Misses two_sections 312 4104 j
above_the_rva zero h = (omega (arith, first_start, first_length), inl (omega (arith, first_start)))
above_the_rva (suc j) h = absurd (omega (arith, h))

rva_to_offset_first_example :
    rva_to_offset nt_two two_sections 312 4104 384
    ≡ pointer_to_raw_data two_sections 312 1 + (4104 - virtual_address two_sections 312 1)
rva_to_offset_first_example =
    rva_to_offset_first nt_two two_sections 312 4104 384 1 (omega (arith, section_count_two))
      above_the_rva (omega arith) (omega (arith, section_start))
      (omega (arith, section_start, section_length)) (omega (arith, section_start, section_length))
      (omega (arith, section_start, section_data)) (omega arith)
