-- ===== src/Loader/Ordinals/Complete.antt =====
-- The table of src/loader/ordinal_table.c has one name for each ordinal of a library.
use my_wine.Prelude.{
  ℕ, ◌≡◌, refl, ap, sym, ◌∙◌, Bool, true, false, ◌&&◌, List, [], ◌∷◌, Option, none, some,
}
use my_wine.Pe.Exports.Lookup.{strcmp}
use my_wine.Strings.{ascii_lower, same_nocase}
use my_wine.Loader.Imports.{is_same}
use my_wine.Loader.ImportTable.Coherent.{is_same-eq, and-split}
use my_wine.Loader.Ordinals.{OrdinalEntry, ordinal_table, ordinal_lookup}
use mathlib.Core.Bool.{true≢false}
use mathlib.Core.List.{Memᴰ}
use mathlib.Core.List.Memᴰ

is_name : Option (List ℕ) → List ℕ → Bool
is_name none func = false
is_name (some f) func = is_same (strcmp f func)

is_name-eq : (r : Option (List ℕ)) (func : List ℕ) → is_name r func ≡ true → r ≡ some func
unfolding is_name
is_name-eq none func h = absurd (true≢false (sym h))
is_name-eq (some f) func h = ap some (is_same-eq f func h)

all_found : List OrdinalEntry → Bool
unfolding is_name
all_found [] = true
all_found (e ∷ entries) =
    is_name (ordinal_lookup e.dll_name e.ordinal) e.func_name && all_found entries

all_found-Mem :
    (entries : List OrdinalEntry) (e : OrdinalEntry)
    → all_found entries ≡ true
    → Memᴰ e entries
    → ordinal_lookup e.dll_name e.ordinal ≡ some e.func_name
unfolding all_found
all_found-Mem [] e h m = absurd (Memᴰ.not-nil m)
all_found-Mem (f ∷ entries) e h (Memᴰ.head here) =
    let first =
      (and-split (is_name (ordinal_lookup f.dll_name f.ordinal) f.func_name) (all_found entries)
        h).0 in
    ap (λ x. ordinal_lookup x.dll_name x.ordinal) here
    ∙ is_name-eq (ordinal_lookup f.dll_name f.ordinal) f.func_name first
    ∙ ap (λ x. some x.func_name) (sym here)
all_found-Mem (f ∷ entries) e h (Memᴰ.tail m) =
    all_found-Mem entries e
      (and-split (is_name (ordinal_lookup f.dll_name f.ordinal) f.func_name) (all_found entries)
        h).1
      m

ordinal_table-all_found : all_found ordinal_table ≡ true
unfolding all_found ordinal_lookup same_nocase strcmp ascii_lower
ordinal_table-all_found = refl

-- ordinal_lookup finds every entry of its table: no entry hides another one of the same library
-- and ordinal.
pub ordinal_lookup_complete :
    (e : OrdinalEntry)
    → Memᴰ e ordinal_table
    → ordinal_lookup e.dll_name e.ordinal ≡ some e.func_name
ordinal_lookup_complete e m = all_found-Mem ordinal_table e ordinal_table-all_found m
