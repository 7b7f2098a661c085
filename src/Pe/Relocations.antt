-- ===== src/Pe/Relocations.antt =====
-- src/loader/relocations.c, in the 64-bit loader. The image is its bytes by RVA, and `base` the
-- address that it is mapped at. The pair of an answer is whether the function returned 0, and the
-- image as it then is: what was patched before an error stays patched.
pub mod Entry
pub mod Moves
pub mod Table
use my_wine.Prelude.{
  ℕ, zero, suc, ◌+◌, ◌-◌, ◌*◌, ◌/◌, ◌%◌, ◌^◌, Bool, true, false, ◌||◌, Option, none, some, ltb, leb,
  ◌==◌, if◌then◌else◌,
}
use my_wine.Pe.Memory.{Bytes, read, write, span}
use my_wine.Pe.{
  NtHeaders, PeType, pe_type_32, pe_type_64, DataDir, image_base, characteristics, get_data_dir,
  rva_to_ptr,
}

-- `*target += amount` on an integer of `n` bytes; none where the target is out of bounds.
unfoldable pub patch : ℕ → NtHeaders → ℕ → ℕ → Bytes → Option Bytes
patch n nt amount rva image = elim (rva_to_ptr nt rva n) [
  | none ↦ none
  | some p ↦ some (write n image p ((read n image p + amount) % span n))
]

-- An entry of a PE32 image, with its warnings dropped: a type that is not supported changes nothing.
unfoldable pub relocate_entry32 : NtHeaders → ℕ → ℕ → ℕ → ℕ → Bytes → Option Bytes
relocate_entry32 nt delta va type offset image =
    if ltb (2 ^ 32 - 1 - offset) va
    then none
    else if (type == 4) || (type == 3)
    then patch 4 nt (delta % 2 ^ 32) (va + offset) image
    else if (type == 1) || (type == 5)
    then patch 2 nt (delta / 2 ^ 16 % 2 ^ 16) (va + offset) image
    else if type == 2
    then patch 2 nt (delta % 2 ^ 16) (va + offset) image
    else some image

-- An entry of a PE32+ image.
unfoldable pub relocate_entry64 : NtHeaders → ℕ → ℕ → ℕ → ℕ → Bytes → Option Bytes
relocate_entry64 nt delta va type offset image =
    if type == 10
    then if ltb (2 ^ 32 - 1 - offset) va then none else patch 8 nt delta (va + offset) image
    else some image

-- The body of the loop over the entries of a block; none where it returns -1.
unfoldable pub relocate_entry : NtHeaders → ℕ → ℕ → ℕ → Bytes → Option Bytes
relocate_entry nt delta va entry image =
    let type = entry / 4096 % 16 in
    let offset = entry % 4096 in
    if type == 0 then some image else elim nt.pe_type [
      | pe_type_32 ↦ relocate_entry32 nt delta va type offset image
      | pe_type_64 ↦ relocate_entry64 nt delta va type offset image
    ]

-- The loop over the `rounds` entries from number `i` on; `entries` is where they start.
unfoldable pub relocate_entries : NtHeaders → ℕ → ℕ → ℕ → ℕ → ℕ → Bytes → Bool × Bytes
relocate_entries nt delta va entries zero i image = (true, image)
relocate_entries nt delta va entries (suc rounds) i image =
    elim (relocate_entry nt delta va (read 2 image (entries + 2 * i)) image) [
      | none ↦ (false, image)
      | some image' ↦ relocate_entries nt delta va entries rounds (i + 1) image'
    ]

-- The loop over the blocks from `block` to `block_end`; none when the fuel runs out.
unfoldable pub relocate_blocks : ℕ → NtHeaders → ℕ → ℕ → ℕ → Bytes → Option (Bool × Bytes)
relocate_blocks zero nt delta block block_end image = none
relocate_blocks (suc fuel) nt delta block block_end image =
    let va = read 4 image block in
    let size = read 4 image (block + 4) in
    let patched = relocate_entries nt delta va (block + 8) ((size - 8) / 2) 0 image in
    let rest = relocate_blocks fuel nt delta (block + size) block_end patched.1 in
    if leb block_end block
    then some (true, image)
    else if ltb size 8
    then some (true, image)
    else if ltb (block_end - block) size
    then some (false, image)
    else if patched.0
    then rest
    else some patched

-- `(uintptr_t)base - pe_image_base(nt)`
unfoldable pub delta_of : ℕ → NtHeaders → ℕ
delta_of base nt = (base + 2 ^ 64 - image_base nt) % 2 ^ 64

-- What apply_relocations does with the directory.
unfoldable pub relocate_dir : ℕ → NtHeaders → ℕ → DataDir → Bytes → Option (Bool × Bytes)
relocate_dir fuel nt delta dir image =
    if (dir.virtual_address == 0) || (dir.size == 0)
    then some (true, image)
    else elim (rva_to_ptr nt dir.virtual_address dir.size) [
      | none ↦ some (false, image)
      | some start ↦ relocate_blocks fuel nt delta start (start + dir.size) image
    ]

-- apply_relocations
unfoldable pub apply_relocations : ℕ → ℕ → NtHeaders → Bytes → Option (Bool × Bytes)
unfolding relocate_dir
apply_relocations fuel base nt image =
    if delta_of base nt == 0
    then some (true, image)
    else if characteristics nt % 2 == 1
    then some (false, image)
    else elim (get_data_dir nt 5) [
      | none ↦ some (true, image)
      | some dir ↦ relocate_dir fuel nt (delta_of base nt) dir image
    ]
