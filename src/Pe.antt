-- ===== src/Pe.antt =====
-- The PE headers of src/pe_priv.h and src/pe_headers.c, on include/pe.h. A file or an image is its
-- bytes by offset; a pointer into it is the offset, and none is NULL. Structures are packed, so a
-- field is read at its offset, least significant byte first.
pub mod Memory
pub mod Headers
pub mod Sections
pub mod Relocations
pub mod Exports
use my_wine.Prelude.{
  ℕ, zero, suc, ◌+◌, ◌-◌, ◌*◌, ◌/◌, ◌%◌, ◌^◌, ◌≡◌, Bool, true, false, not, ◌&&◌, ◌||◌, List, [],
  ◌∷◌, Option, none, some, ltb, leb, ◌==◌, if◌then◌else◌,
}
use Memory.{Bytes, read}

-- safe_ptr_at: the offset, if `len` bytes from it lie in the file.
unfoldable pub safe_ptr_at : ℕ → ℕ → ℕ → Option ℕ
safe_ptr_at offset len file_size =
    if ltb file_size len || ltb (file_size - len) offset then none else some offset

-- pe_rva_range_is_valid
unfoldable pub rva_range_is_valid : ℕ → ℕ → ℕ → Bool
rva_range_is_valid rva len image_size =
    if ltb image_size len || ltb (image_size - len) rva then false else true

-- `pe_type_t`
pub data PeType : Type 0 where
  pe_type_32 pe_type_64 : PeType

-- `IMAGE_NT_HEADERS`: the tag, and the bytes of the member of the union that it names.
pub record NtHeaders : Type 0 where
  pub pe_type : PeType
  pub raw : Bytes

-- A field: its offset and width in `IMAGE_NT_HEADERS32` and in `IMAGE_NT_HEADERS64`.
unfoldable pub field_of : NtHeaders → ℕ → ℕ → ℕ → ℕ → ℕ
field_of nt offset32 width32 offset64 width64 = elim nt.pe_type [
  | pe_type_32 ↦ read width32 nt.raw offset32
  | pe_type_64 ↦ read width64 nt.raw offset64
]

-- pe_image_base, pe_entry_rva, pe_stack_reserve, pe_section_count, pe_size_of_image,
-- pe_size_of_headers, pe_section_alignment, pe_optional_header_size, pe_machine,
-- pe_pointer_to_symbol_table, pe_number_of_symbols, pe_characteristics and pe_time_date_stamp
unfoldable pub image_base : NtHeaders → ℕ
unfolding field_of
image_base nt = field_of nt 52 4 48 8

unfoldable pub entry_rva : NtHeaders → ℕ
unfolding field_of
entry_rva nt = field_of nt 40 4 40 4

unfoldable pub stack_reserve : NtHeaders → ℕ
unfolding field_of
stack_reserve nt = field_of nt 96 4 96 8

unfoldable pub section_count : NtHeaders → ℕ
unfolding field_of
section_count nt = field_of nt 6 2 6 2

unfoldable pub size_of_image : NtHeaders → ℕ
unfolding field_of
size_of_image nt = field_of nt 80 4 80 4

unfoldable pub size_of_headers : NtHeaders → ℕ
unfolding field_of
size_of_headers nt = field_of nt 84 4 84 4

unfoldable pub section_alignment : NtHeaders → ℕ
unfolding field_of
section_alignment nt = field_of nt 56 4 56 4

unfoldable pub optional_header_size : NtHeaders → ℕ
unfolding field_of
optional_header_size nt = field_of nt 20 2 20 2

unfoldable pub machine : NtHeaders → ℕ
unfolding field_of
machine nt = field_of nt 4 2 4 2

unfoldable pub pointer_to_symbol_table : NtHeaders → ℕ
unfolding field_of
pointer_to_symbol_table nt = field_of nt 12 4 12 4

unfoldable pub number_of_symbols : NtHeaders → ℕ
unfolding field_of
number_of_symbols nt = field_of nt 16 4 16 4

unfoldable pub characteristics : NtHeaders → ℕ
unfolding field_of
characteristics nt = field_of nt 22 2 22 2

unfoldable pub time_date_stamp : NtHeaders → ℕ
unfolding field_of
time_date_stamp nt = field_of nt 8 4 8 4

-- pe_rva_to_ptr and pe_rva_to_const_ptr, on an image that is there
unfoldable pub rva_to_ptr : NtHeaders → ℕ → ℕ → Option ℕ
rva_to_ptr nt rva len = if rva_range_is_valid rva len (size_of_image nt) then some rva else none

-- `IMAGE_DATA_DIRECTORY`
pub record DataDir : Type 0 where
  pub virtual_address : ℕ
  pub size : ℕ

-- pe_get_data_dir
unfoldable pub get_data_dir : NtHeaders → ℕ → Option DataDir
unfolding field_of
get_data_dir nt index =
    if leb (field_of nt 116 4 132 4) index
    then none
    else some (record {
      virtual_address = field_of nt (120 + 8 * index) 4 (136 + 8 * index) 4;
      size = field_of nt (124 + 8 * index) 4 (140 + 8 * index) 4;
    })

-- parse_dos_header: the offset of the PE signature, `e_lfanew`, if the magic is there.
unfoldable pub parse_dos_header : Bytes → ℕ → Option ℕ
parse_dos_header file file_size =
    if ltb file_size 64 then none else elim (safe_ptr_at 0 64 file_size) [
      | none ↦ none
      | some hdr ↦ if read 2 file hdr == 0x5a4d then some (read 4 file (hdr + 60)) else none
    ]

-- A sum of `uint32_t`.
abbrev pub add32 : ℕ → ℕ → ℕ
add32 a b = (a + b) % 2 ^ 32

-- The branch of parse_nt_headers for one magic: `sizeof` the optional header and of the structure.
unfoldable pub nt_branch : Bytes → ℕ → ℕ → ℕ → PeType → ℕ → ℕ → Option NtHeaders
nt_branch file file_size pe_offset file_hdr type size_of_optional size_of_nt =
    if ltb (read 2 file (file_hdr + 16)) size_of_optional
    then none
    else if ltb (2 ^ 32 - 1 - size_of_nt) pe_offset || ltb file_size (pe_offset + size_of_nt)
    then none
    else elim (safe_ptr_at pe_offset size_of_nt file_size) [
      | none ↦ none
      | some nt ↦ some (record { pe_type = type; raw = λ i. file (nt + i) })
    ]

-- Its part behind the PE signature.
unfoldable pub nt_from_file_header : Bytes → ℕ → ℕ → Option NtHeaders
unfolding nt_branch
nt_from_file_header file file_size pe_offset =
    let file_header_off = add32 pe_offset 4 in
    let opt_header_off = add32 file_header_off 20 in
    let machine = read 2 file (file_header_off + 0) in
    let magic = read 2 file opt_header_off in
    if ltb file_size (file_header_off + 20)
    then none
    else if not (machine == 0x8664) && not (machine == 0x14c)
    then none
    else if ltb file_size (opt_header_off + 2)
    then none
    else if magic == 0x10b
    then nt_branch file file_size pe_offset file_header_off pe_type_32 224 248
    else if magic == 0x20b
    then nt_branch file file_size pe_offset file_header_off pe_type_64 240 264
    else none

-- parse_nt_headers; the offsets into the file are `uint32_t`, the bounds `size_t`. Each safe_ptr_at
-- of it repeats the test before it.
unfoldable pub parse_nt_headers : Bytes → ℕ → ℕ → Option NtHeaders
unfolding nt_from_file_header
parse_nt_headers file file_size pe_offset =
    if ltb file_size (pe_offset + 4)
    then none
    else if not (read 4 file pe_offset == 0x4550)
    then none
    else nt_from_file_header file file_size pe_offset
