-- ===== src/Tests/ResolveTests.antt =====
-- Pass 1 over the imports (src/loader/import_resolve.c) of a small image.
use my_wine.Prelude.{
  ℕ, zero, suc, ◌+◌, ◌*◌, ◌≤◌, ◌<◌, ◌≡◌, ◌≢◌, refl, sym, ◌∙◌, arith, Bool, true, ◌&&◌, Option, none,
  some, leb, ltb,
}
use my_wine.Pe.Memory.{Bytes, IsBytes, read, write, span, write-IsBytes}
use my_wine.Pe.{
  NtHeaders, pe_type_32, field_of, size_of_image, rva_range_is_valid, rva_to_ptr, get_data_dir,
}
use my_wine.Pe.Exports.{has_nul}
use my_wine.Loader.Resolve.{
  Resolver, thunk_size, first_thunk, ilt_rva, desc_name, cstr_valid, import_of, patched,
  resolve_thunks, resolve_descriptor, resolve_descriptors, resolve_import_pass1,
}
use my_wine.Loader.Resolve.Thunks.{SameOutside, Layout}
use my_wine.Loader.Resolve.Directory.{Placed, resolve_import_pass1_ends}
use my_wine.Loader.Resolve.Frame.{resolve_import_pass1_outside}
use my_wine.Loader.Resolve.Filled.{Imports, resolve_descriptor_fills}

-- A PE32 image of 96 bytes with its import directory, of two descriptors, at 16.
abbrev nt : NtHeaders
nt = record {
  pe_type = pe_type_32;
  raw = write 4 (write 4 (write 4 (write 4 (λ i. 0) 80 96) 116 16) 128 16) 132 40;
}

nt-IsBytes : IsBytes nt.raw
nt-IsBytes = write-IsBytes 4 (write 4 (write 4 (write 4 (λ i. 0) 80 96) 116 16) 128 16) 132 40 (
    write-IsBytes 4 (write 4 (write 4 (λ i. 0) 80 96) 116 16) 128 16 (
      write-IsBytes 4 (write 4 (λ i. 0) 80 96) 116 16
        (write-IsBytes 4 (λ i. 0) 80 96 (λ i. omega arith))))

-- The first descriptor has its thunks at 56, its IAT at 64 and its name at 72; the one thunk names the
-- function at 76.
abbrev image : Bytes
image =
    write 1 (write 1 (write 4 (write 4 (write 4 (write 4 (λ i. 0) 16 56) 28 72) 32 64) 56 76) 72 97)
      78 102

abbrev iat : ℕ → Bool
iat a = leb 64 a && ltb a 68

abbrev resolver : Resolver
resolver now dll func = some 4660

layout : Layout iat nt image 16 (ilt_rva image 16) (first_thunk image 16)
unfolding read write
layout = record {
  count = 1;
  slots = λ i k li lk. ground arith;
  ends = refl;
  end_apart = λ k lk. ground arith;
}

size : size_of_image nt ≡ 96
unfolding size_of_image field_of read write
size = refl

thunk : (i : ℕ) → i < 1 → read (thunk_size nt) image (ilt_rva image 16 + i * thunk_size nt) ≡ 76
unfolding read write
thunk zero li = refl
thunk (suc i) li = absurd (omega arith)

-- The name of the function stays where it is.
valid : (now : Bytes) → SameOutside iat image now → cstr_valid nt now 78 ≡ true
unfolding cstr_valid has_nul rva_range_is_valid size_of_image field_of read write
valid now same =
    let a : now 78 ≡ 102 = same 78 refl in let b : now 79 ≡ 0 = same 79 refl in rw (a, b) refl

found :
    (i : ℕ) (now : Bytes)
    → i < 1
    → SameOutside iat image now
    → import_of resolver nt
        (desc_name image 16)
        (read (thunk_size nt) image (ilt_rva image 16 + i * thunk_size nt))
        now
      ≡ some (some 4660)
unfolding import_of rva_range_is_valid rva_to_ptr size_of_image field_of read write
found i now li same = rw (thunk i li, valid now same) refl

imports : Imports resolver iat nt image 16 (λ i. some 4660)
unfolding read write layout cstr_valid has_nul rva_range_is_valid size_of_image field_of import_of
    rva_to_ptr
imports = record {
  layout = layout;
  named = refl;
  desc_apart = λ k lk. ground arith;
  ilt_inside = omega arith;
  iat_inside = omega arith;
  thunks_apart = λ i k li lk. ground arith;
  thunks = λ i li e. absurd (omega (arith, sym (thunk i li) ∙ e));
  found = found;
}

resolve_descriptor_fills_example :
    (image' : Bytes) × (resolve_descriptor resolver nt 2 16 image ≡ some (true, image'))
    × ((i v : ℕ)
        → i < 1
        → ◌≡◌ {A = Option ℕ} (some 4660) (some v)
        → v < span 4
        → read 4 image' (64 + i * 4) ≡ v)
    × ((i : ℕ)
        → ◌≡◌ {A = Option ℕ} (some 4660) none
        → read 4 image' (64 + i * 4) ≡ read 4 image (64 + i * 4))
    × SameOutside iat image image'
unfolding layout imports
resolve_descriptor_fills_example =
    resolve_descriptor_fills resolver iat nt image 16 2 (λ i. some 4660) imports (omega arith)

directory : get_data_dir nt 1 ≡ some (record { virtual_address = 16; size = 40 })
unfolding get_data_dir field_of read write
directory = refl

second : desc_name image 36 ≡ 0
unfolding read write
second = refl

each_descriptor :
    (k : ℕ)
    → 20 * k + 20 ≤ 40
    → desc_name image (16 + 20 * k) ≢ 0
    → Layout iat nt image
        (16 + 20 * k)
        (ilt_rva image (16 + 20 * k))
        (first_thunk image (16 + 20 * k))
each_descriptor zero fits named = layout
each_descriptor (suc zero) fits named = absurd (named second)
each_descriptor (suc (suc k)) fits named = absurd (omega arith)

placed : Placed iat nt image 16 40
unfolding read write
placed = record { table_apart = λ k lk. ground arith; each = each_descriptor }

image' : Bytes
image' = write 4 image 64 4660

done : resolve_import_pass1 resolver nt 97 image ≡ some (true, image')
unfolding image' resolve_import_pass1 resolve_descriptors resolve_descriptor resolve_thunks
    import_of patched cstr_valid has_nul rva_range_is_valid rva_to_ptr size_of_image get_data_dir
    field_of read write
done = refl

resolve_import_pass1_ends_example :
    (r : Bool × Bytes) × (resolve_import_pass1 resolver nt 97 image ≡ some r)
resolve_import_pass1_ends_example =
    resolve_import_pass1_ends resolver nt 97 image nt-IsBytes (omega (arith, size))

resolve_import_pass1_outside_example : SameOutside iat image image'
resolve_import_pass1_outside_example =
    resolve_import_pass1_outside resolver nt iat 97 image image'
      (record { virtual_address = 16; size = 40 }) true nt-IsBytes directory placed done
