-- ===== src/Loader/Resolve.antt =====
-- src/loader/import_resolve.c: pass 1 over the import directory, which writes the addresses of the
-- imports into the image. The image is its bytes by RVA; the pointers `orig_base` and `iat_base` are
-- RVAs, and sums of `size_t` do not wrap around (64 bits). What resolves a name is an argument.
pub mod Thunks
pub mod Directory
pub mod Frame
pub mod Filled
use my_wine.Prelude.{
  ℕ, zero, suc, ◌+◌, ◌-◌, ◌*◌, ◌/◌, ◌%◌, ◌^◌, Bool, true, false, not, ◌&&◌, ◌||◌, List, [], ◌∷◌,
  Option, none, some, ltb, leb, ◌==◌, if◌then◌else◌,
}
use my_wine.Pe.Memory.{Bytes, read, write}
use my_wine.Pe.{
  PeType, pe_type_32, pe_type_64, NtHeaders, size_of_image, rva_range_is_valid, rva_to_ptr,
  get_data_dir, DataDir, add32,
}
use my_wine.Pe.Exports.{has_nul}
use my_wine.Pe.Exports.Lookup.{cstr}
use my_wine.Loader.Ordinals.{ordinal_lookup}
use my_wine.Loader.Imports.{ImportEntry, resolve_loader_import}
use my_wine.Loader.Modules.{ModuleList}

-- What resolve_loader_import gives for a library and a name, with the image as it is then.
abbrev pub Resolver : Type 0
Resolver = Bytes → List ℕ → List ℕ → Option ℕ

-- image_cstr_valid
unfoldable pub cstr_valid : NtHeaders → Bytes → ℕ → Bool
cstr_valid nt image rva =
    rva_range_is_valid rva 1 (size_of_image nt) && has_nul (size_of_image nt - rva) image rva

-- The string at an RVA.
abbrev pub string_at : NtHeaders → Bytes → ℕ → List ℕ
string_at nt image rva = cstr (size_of_image nt - rva) image rva

-- `thunk_size` and `high_bit_mask`
abbrev pub thunk_size : NtHeaders → ℕ
thunk_size nt = elim nt.pe_type [ pe_type_32 ↦ 4 | pe_type_64 ↦ 8 ]

abbrev pub high_bit_mask : NtHeaders → ℕ
high_bit_mask nt = elim nt.pe_type [ pe_type_32 ↦ 0x80000000 | pe_type_64 ↦ 0x8000000000000000 ]

-- The fields of `IMAGE_IMPORT_DESCRIPTOR` that are used, and its size.
abbrev pub original_first_thunk : Bytes → ℕ → ℕ
original_first_thunk image desc = read 4 image desc

abbrev pub desc_name : Bytes → ℕ → ℕ
desc_name image desc = read 4 image (desc + 12)

abbrev pub first_thunk : Bytes → ℕ → ℕ
first_thunk image desc = read 4 image (desc + 16)

abbrev pub desc_size : ℕ
desc_size = 20

abbrev pub ilt_rva : Bytes → ℕ → ℕ
ilt_rva image desc =
    if original_first_thunk image desc == 0
    then first_thunk image desc
    else original_first_thunk image desc

-- The address that a thunk asks for, by ordinal or by name: none is the return of -1, and none
-- inside of it an import that is not found.
unfoldable pub import_of : Resolver → NtHeaders → ℕ → ℕ → Bytes → Option (Option ℕ)
import_of resolve nt name thunk_val image =
    let dll = string_at nt image name in
    if leb (high_bit_mask nt) thunk_val
    then elim (ordinal_lookup dll (thunk_val % 2 ^ 16)) [
      | none ↦ some none
      | some func ↦ some (resolve image dll func)
    ]
    else if ltb (2 ^ 32 - 1 - 2) thunk_val
        || not (rva_range_is_valid thunk_val 3 (size_of_image nt))
        || not (cstr_valid nt image (thunk_val + 2))
    then none
    else elim (rva_to_ptr nt thunk_val 3) [
      | none ↦ none
      | some imp_name ↦ some (resolve image dll (string_at nt image (imp_name + 2)))
    ]

-- The store into the IAT, if there is an address.
unfoldable pub patched : NtHeaders → ℕ → Option ℕ → Bytes → Bytes
patched nt slot none image = image
patched nt slot (some addr) image = write (thunk_size nt) image slot addr

-- The loop over the thunks of the descriptor at `desc`, from index `i` on: none is fuel that ran
-- out, false the return of -1. The bounds are tested with FirstThunk as the descriptor has it at
-- that moment, the store goes to `iat_base` as it was before the loop.
unfoldable pub resolve_thunks :
    Resolver → NtHeaders → ℕ → ℕ → ℕ → ℕ → ℕ → ℕ → Bytes → Option (Bool × Bytes)
resolve_thunks resolve nt desc name ilt iat_base zero i image = none
resolve_thunks resolve nt desc name ilt iat_base (suc fuel) i image =
    let size = thunk_size nt in
    let thunk_off = i * size in
    let thunk_val = read size image (ilt + thunk_off) in
    if not (rva_range_is_valid ilt (thunk_off + size) (size_of_image nt))
      || not (rva_range_is_valid (first_thunk image desc) (thunk_off + size) (size_of_image nt))
    then some (false, image)
    else if thunk_val == 0
    then some (true, image)
    else elim (import_of resolve nt name thunk_val image) [
      | none ↦ some (false, image)
      | some addr ↦
          resolve_thunks resolve nt desc name ilt iat_base fuel (i + 1)
            (patched nt (iat_base + thunk_off) addr image)
    ]

-- What the outer loop does with one descriptor.
unfoldable pub resolve_descriptor : Resolver → NtHeaders → ℕ → ℕ → Bytes → Option (Bool × Bytes)
resolve_descriptor resolve nt fuel desc image =
    let name = desc_name image desc in
    if not (cstr_valid nt image name)
    then some (false, image)
    else elim (rva_to_ptr nt (ilt_rva image desc) (thunk_size nt)) [
      | none ↦ some (false, image)
      | some orig_base ↦ elim (rva_to_ptr nt (first_thunk image desc) (thunk_size nt)) [
        | none ↦ some (false, image)
        | some iat_base ↦ resolve_thunks resolve nt desc name orig_base iat_base fuel 0 image
      ]
    ]

-- The outer loop, from `desc_offset` on, with `inner` fuel for each descriptor.
unfoldable pub resolve_descriptors :
    Resolver → NtHeaders → ℕ → ℕ → ℕ → ℕ → ℕ → ℕ → Bytes → Option (Bool × Bytes)
resolve_descriptors resolve nt import_rva dir_size inner zero desc_offset desc image = none
resolve_descriptors resolve nt import_rva dir_size inner (suc fuel) desc_offset desc image =
    let next = add32 desc_offset desc_size in
    if leb (desc_offset + desc_size) dir_size && not (desc_name image desc == 0)
    then elim (resolve_descriptor resolve nt inner desc image) [
      | none ↦ none
      | some (false, image') ↦ some (false, image')
      | some (true, image') ↦ elim (rva_to_ptr nt (add32 import_rva next) desc_size) [
        | none ↦ some (false, image')
        | some desc' ↦
            resolve_descriptors resolve nt import_rva dir_size inner fuel next desc' image'
      ]
    ]
    else some (leb (desc_offset + desc_size) dir_size, image)

-- resolve_import_pass1: whether it returned 0, and the image.
unfoldable pub resolve_import_pass1 : Resolver → NtHeaders → ℕ → Bytes → Option (Bool × Bytes)
resolve_import_pass1 resolve nt fuel image = elim (get_data_dir nt 1) [
  | none ↦ some (true, image)
  | some imp_dir ↦
      if imp_dir.size == 0
      then some (true, image)
      else if (imp_dir.virtual_address == 0)
          || not (rva_range_is_valid imp_dir.virtual_address imp_dir.size (size_of_image nt))
      then some (false, image)
      else elim (rva_to_ptr nt imp_dir.virtual_address desc_size) [
        | none ↦ some (false, image)
        | some desc ↦
            resolve_descriptors resolve nt imp_dir.virtual_address imp_dir.size fuel fuel 0 desc
              image
      ]
]
