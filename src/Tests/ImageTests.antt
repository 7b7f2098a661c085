-- ===== src/Tests/ImageTests.antt =====
-- Relocations (src/loader/relocations.c) and exports (src/loader/export_table.c) of small images.
use my_wine.Prelude.{
  ℕ, zero, suc, ◌+◌, ◌-◌, ◌*◌, ◌/◌, ◌%◌, ◌^◌, ◌<◌, ◌≡◌, refl, arith, Bool, true, [], ◌∷◌, some,
}
use my_wine.Pe.Memory.{Bytes, IsBytes, read, write, span, write-IsBytes}
use my_wine.Pe.{
  NtHeaders, pe_type_32, pe_type_64, field_of, image_base, size_of_image, rva_range_is_valid,
  rva_to_ptr, get_data_dir,
}
use my_wine.Pe.Relocations.{patch, relocate_entry32, relocate_entry, apply_relocations}
use my_wine.Pe.Relocations.Entry.{Confined}
use my_wine.Pe.Relocations.Moves.{Moves, relocate_entry_displaces}
use my_wine.Pe.Relocations.Table.{apply_relocations-Confined}
use my_wine.Pe.Exports.{Module, empty_cache, image_cstr_valid, has_nul}
use my_wine.Pe.Exports.Lookup.{strcmp, above, cstr, name_at, export_of_name, lookup_export}
use my_wine.Pe.Exports.Search.{Holds, lookup_export_finds}

-- A PE32+ image of 128 bytes with six directories, of which number 5 has one block at 64.
abbrev nt : NtHeaders
nt = record {
  pe_type = pe_type_64;
  raw = write 4 (write 4 (write 4 (write 4 (λ i. 0) 180 12) 176 64) 132 6) 80 128;
}

-- The block relocates the 8 bytes at 16.
abbrev image : Bytes
image = write 2 (write 4 (write 4 (λ i. 0) 68 12) 64 0) 72 0xa010

image-IsBytes : IsBytes (λ i. 0)
image-IsBytes i = omega arith

abbrev blank : Bytes
blank = λ i. 0

-- A PE32 image of the same size that holds the high half of the address 0x401234 at 16.
abbrev nt_32 : NtHeaders
nt_32 = record { pe_type = pe_type_32; raw = nt.raw }

abbrev high_half : Bytes
high_half = write 2 blank 16 0x40

abbrev moved : Bytes
moved = write 2 high_half 16 0x43

applied : relocate_entry nt_32 0x30000 0 0x1010 high_half ≡ some moved
unfolding relocate_entry relocate_entry32 patch rva_to_ptr rva_range_is_valid size_of_image field_of
    read write span
applied = refl

high_half_there : read 2 high_half 16 ≡ 0x401234 / 2 ^ 16 % span 2
unfolding read write span
high_half_there = refl

relocate_entry_displaces_example :
    Moves (2, 16) 0x30000 0x401234 16 high_half moved
    × (relocate_entry nt_32 ((2 ^ 64 - 0x30000) % 2 ^ 64) 0 0x1010 moved ≡ some high_half)
relocate_entry_displaces_example =
    relocate_entry_displaces nt_32 0x30000 0 0x1010 0x401234 high_half moved
      (write-IsBytes 2 blank 16 0x40 image-IsBytes) (omega arith) (omega arith) high_half_there
      applied

directory : get_data_dir nt 5 ≡ some (record { virtual_address = 64; size = 12 })
unfolding get_data_dir field_of read write
directory = refl

apply_relocations-Confined_example :
    (r : Bool × Bytes) × (apply_relocations 2 65536 nt image ≡ some r)
    × Confined (size_of_image nt) image r.1
apply_relocations-Confined_example =
    apply_relocations-Confined 2 65536 nt image (λ dir e. ground (arith, directory, e))

preferred : image_base nt ≡ 0
unfolding image_base field_of read write
preferred = refl

-- A module that exports "A" and "B".
abbrev exports : Module
exports = record {
  nt = nt;
  image = write 1 (write 1 blank 20 66) 10 65;
  cache = record empty_cache {
    number_of_functions = 2;
    number_of_names = 2;
    name_table = λ i. 10 + 10 * i;
    ordinal_table = λ i. i;
    func_table = λ i. 40 + 8 * i;
  };
}

names_before : (j : ℕ) → j < 1 → strcmp (66 ∷ []) (name_at exports j) ≡ above
unfolding strcmp name_at cstr size_of_image field_of read write
names_before zero h = refl
names_before (suc j) h = absurd (omega arith)

names_valid : (j : ℕ) → j < 2 → image_cstr_valid exports (exports.cache.name_table j) ≡ true
unfolding image_cstr_valid has_nul rva_range_is_valid size_of_image field_of read write
names_valid zero h = refl
names_valid (suc zero) h = refl
names_valid (suc (suc j)) h = absurd (omega arith)

exports-Holds : Holds exports (66 ∷ []) 1
exports-Holds = record {
  inside = omega arith;
  here = unfold strcmp name_at cstr size_of_image field_of read write in refl;
  before = names_before;
  behind = λ j low high. absurd (omega (arith, low, high));
  strings = names_valid;
}

lookup_export_finds_example : lookup_export 3 exports (66 ∷ []) ≡ some (export_of_name exports 1)
lookup_export_finds_example = lookup_export_finds 3 exports (66 ∷ []) 1 exports-Holds (omega arith)
