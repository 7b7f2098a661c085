-- ===== src/Pe/Exports/Lookup.antt =====
-- The lookups of src/loader/export_table.c, by name and by ordinal.
use my_wine.Prelude.{
  ℕ, zero, suc, ◌+◌, ◌-◌, ◌/◌, ◌%◌, ◌^◌, Bool, false, not, ◌&&◌, ◌||◌, List, [], ◌∷◌, Option, none,
  some, ltb, leb, ◌==◌, if◌then◌else◌,
}
use my_wine.Pe.Memory.{Bytes}
use my_wine.Pe.{size_of_image, rva_to_ptr}
use my_wine.Pe.Exports.{Cache, Module, image_cstr_valid}

-- check_forwarder
unfoldable pub check_forwarder : Cache → ℕ → Bool
check_forwarder c func_rva =
    if ltb (2 ^ 32 - 1 - c.export_dir_rva) c.export_dir_size
    then false
    else leb c.export_dir_rva func_rva && ltb func_rva (c.export_dir_rva + c.export_dir_size)

-- The sign of what syscall_safe_strcmp returns.
pub data Sign : Type 0 where
  below same above : Sign

-- syscall_safe_strcmp on the bytes in front of the two NULs.
unfoldable pub strcmp : List ℕ → List ℕ → Sign
strcmp [] [] = same
strcmp [] (b ∷ bs) = below
strcmp (a ∷ as') [] = above
strcmp (a ∷ as') (b ∷ bs) =
    let rest = strcmp as' bs in if a == b then rest else if ltb a b then below else above

-- The bytes of a C string, from `rva` to the NUL or the end of `rounds` bytes.
unfoldable pub cstr : ℕ → Bytes → ℕ → List ℕ
cstr zero image rva = []
cstr (suc rounds) image rva =
    let rest = cstr rounds image (rva + 1) in if image rva == 0 then [] else image rva ∷ rest

-- The name that the table gives at an index.
unfoldable pub name_at : Module → ℕ → List ℕ
name_at m i = cstr (size_of_image m.nt - m.cache.name_table i) m.image (m.cache.name_table i)

-- What both lookups do with the RVA of a function.
unfoldable pub export_at : Module → ℕ → Option ℕ
export_at m func_rva = if check_forwarder m.cache func_rva then none else rva_to_ptr m.nt func_rva 1

-- The end of lookup_export at the entry that it found.
unfoldable pub export_of_name : Module → ℕ → Option ℕ
unfolding export_at
export_of_name m i =
    let ordinal = m.cache.ordinal_table i in
    if (m.cache.number_of_functions == 0) || leb m.cache.number_of_functions ordinal
    then none
    else export_at m (m.cache.func_table ordinal)

-- The binary search of lookup_export; the outer none is fuel that ran out.
unfoldable pub search : ℕ → Module → List ℕ → ℕ → ℕ → Option (Option ℕ)
search zero m name lo hi = none
search (suc fuel) m name lo hi =
    let mid = lo + (hi - lo) / 2 in
    let left = search fuel m name lo mid in
    let right = search fuel m name (mid + 1) hi in
    let found : Option (Option ℕ) = elim (strcmp name (name_at m mid)) [
      | below ↦ left
      | above ↦ right
      | same ↦ some (export_of_name m mid)
    ] in
    if leb hi lo
    then some none
    else if not (image_cstr_valid m (m.cache.name_table mid))
    then some none
    else found

-- lookup_export
unfoldable pub lookup_export : ℕ → Module → List ℕ → Option (Option ℕ)
lookup_export fuel m name =
    if m.cache.number_of_names == 0 then some none else search fuel m name 0 m.cache.number_of_names

-- lookup_export_by_ordinal
unfoldable pub lookup_export_by_ordinal : Module → ℕ → Option ℕ
unfolding export_at
lookup_export_by_ordinal m ordinal =
    let idx = (ordinal + 2 ^ 32 - m.cache.base_ordinal) % 2 ^ 32 in
    if m.cache.number_of_functions == 0
    then none
    else if leb m.cache.number_of_functions idx
    then none
    else export_at m (m.cache.func_table idx)
