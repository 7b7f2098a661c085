-- ===== src/Tests/LoaderTests.antt =====
-- The registry of loaded modules and the resolution of names (src/loader) on small tables.
use my_wine.Prelude.{
  ℕ, ◌+◌, ◌<◌, ◌≡◌, ◌≢◌, refl, ap, sym, ◌∙◌, arith, List, [], ◌∷◌, none, some, length, get_or,
}
use my_wine.Pe.{NtHeaders, pe_type_64}
use my_wine.Pe.Exports.Lookup.{strcmp}
use my_wine.Strings.{ascii_lower, same_nocase, codes}
use my_wine.Loader.Modules.{
  ModuleList, module_at, init_module_list, add_module, remove_module, find_from,
  find_module_by_name,
}
use my_wine.Loader.Modules.Find.{IsPacked, init-IsPacked}
use my_wine.Loader.Modules.Gap.{find_module_by_name-add_module, remove_module-add_module}
use my_wine.Loader.Ordinals.{ordinal_lookup}
use my_wine.Loader.Ordinals.Complete.{ordinal_lookup_complete}
use my_wine.Loader.Imports.{
  ImportEntry, no_entry, import_cmp_by_name, scan_table, set_import, init_import_table,
  resolve_loader_import, resolve_loader_import_32,
}
use my_wine.Loader.Imports.Sort.{IsSorted, init_import_table-IsSorted, length-init_import_table}
use my_wine.Loader.ImportTable.{build_64, source_table, import_table}
use my_wine.Loader.ImportTable.Resolved.{
  Ready, Mem-get_or, resolve_loader_import-eq, resolve_loader_import_builtin,
}
use my_wine.Loader.ImportTable.Shims.{init_msvcrt_imports, set_imports, init_import_table_64}
use mathlib.Core.List.{Mem, Memᴰ, Perm}
use mathlib.Core.List.Memᴰ

abbrev nt : NtHeaders
nt = record { pe_type = pe_type_64; raw = λ i. 0 }

abbrev first_dll : List ℕ
first_dll = codes "A.dll"

no_module : find_module_by_name first_dll init_module_list ≡ none
unfolding find_module_by_name init_module_list find_from
no_module = refl

find_module_by_name-add_module_example :
    let (m, l') = add_module 4096 first_dll nt init_module_list in
    (m ≡ some 0)
    × IsPacked l'
    × (find_module_by_name first_dll l' ≡ some 0)
    × ((module_at l' 0).nt ≡ some nt)
unfolding init_module_list
find_module_by_name-add_module_example =
    find_module_by_name-add_module 4096 first_dll nt init_module_list init-IsPacked (omega arith)
      (λ e. absurd (omega (arith, e))) refl no_module

remove_module-add_module_example :
    remove_module 0 (add_module 4096 first_dll nt init_module_list).1 ≡ init_module_list
unfolding init_module_list
remove_module-add_module_example =
    remove_module-add_module 4096 first_dll nt init_module_list init-IsPacked (omega arith)

one_module : ModuleList
one_module = (add_module 4096 first_dll nt init_module_list).1

one_module_live : (i : ℕ) → i < one_module.module_count → (module_at one_module i).base ≢ 0
unfolding one_module init_module_list
one_module_live i h =
    (find_module_by_name-add_module 4096 first_dll nt init_module_list init-IsPacked (omega arith)
        (λ e. absurd (omega (arith, e))) refl no_module).1.live
      i h

ordinal_lookup_complete_example :
    ordinal_lookup (codes "ntdll.dll") 5 ≡ some (codes "NtCallbackReturn")
ordinal_lookup_complete_example =
    ordinal_lookup_complete
      (record { dll_name = codes "ntdll.dll"; ordinal = 5; func_name = codes "NtCallbackReturn" })
      (Memᴰ.tail (Memᴰ.head refl))

abbrev lower : ImportEntry
lower = record { dll_name = codes "user32.dll"; name = codes "AppendMenuA"; address = 4096 }

abbrev upper : ImportEntry
upper = record { dll_name = codes "user32.DLL"; name = codes "AppendMenuA"; address = 4096 }

abbrev table : List ImportEntry
table = lower ∷ upper ∷ []

init_import_table-IsSorted_example :
    IsSorted (init_import_table table) × Perm (init_import_table table) table
init_import_table-IsSorted_example = init_import_table-IsSorted table

table-IsSorted : IsSorted table
unfolding strcmp
table-IsSorted = ((λ e. cc, tt), (tt, tt))

table-coherent : (e : ImportEntry) → Memᴰ e table → e.address ≡ 4096
table-coherent e (Memᴰ.head h) = ap (λ x. x.address) h
table-coherent e (Memᴰ.tail (Memᴰ.head h)) = ap (λ x. x.address) h
table-coherent e (Memᴰ.tail (Memᴰ.tail m)) = absurd (Memᴰ.not-nil m)

table-Ready : Ready 3 table
table-Ready = record {
  sorted = table-IsSorted;
  coherent = λ e f me mf n. table-coherent e me ∙ sym (table-coherent f mf);
  enough = omega arith;
}

scanned : scan_table table (codes "USER32.dll") (codes "AppendMenuA") ≡ some lower
unfolding scan_table import_cmp_by_name same_nocase ascii_lower strcmp
scanned = refl

resolve_loader_import-eq_example :
    resolve_loader_import 3 table one_module (λ i. 0) (codes "USER32.dll") (codes "AppendMenuA")
    ≡ resolve_loader_import_32 3 table one_module
        (λ i. 0)
        (codes "USER32.dll")
        (codes "AppendMenuA")
resolve_loader_import-eq_example =
    resolve_loader_import-eq 3 table one_module (λ i. 0) (codes "USER32.dll") (codes "AppendMenuA")
      lower table-Ready scanned (λ e. absurd (omega (arith, e)))

-- A linker that puts a symbol at an address by its length: `__wine_iob_data` at 4111.
abbrev by_length : List ℕ → ℕ
by_length symbol = 4096 + length symbol

abbrev linked_table : List ImportEntry
linked_table = init_msvcrt_imports by_length build_64 (import_table by_length build_64)

abbrev iob : ImportEntry
iob = record { dll_name = codes "msvcrt.dll"; name = codes "_iob"; address = 4111 }

iob_there : get_or linked_table 182 no_entry ≡ iob
unfolding init_msvcrt_imports set_imports set_import import_table source_table strcmp
iob_there = refl

linked_table_long : 182 < length linked_table
unfolding init_msvcrt_imports set_imports set_import import_table source_table strcmp
linked_table_long = omega arith

linked_table_short : length linked_table < 1000
unfolding init_msvcrt_imports set_imports set_import import_table source_table strcmp
linked_table_short = omega arith

iob-Mem : Mem iob linked_table
iob-Mem = rw (sym iob_there) (∣ Mem-get_or linked_table 182 linked_table_long ∣₁)

sorted_table_short : length (init_import_table linked_table) < 1000
sorted_table_short = rw (length-init_import_table linked_table) linked_table_short

resolve_loader_import_builtin_example :
    resolve_loader_import 1000
      (init_import_table_64 init_import_table linked_table)
      one_module
      (λ i. 0)
      (codes "other.dll")
      (codes "_iob")
    ≡ some (some 4111)
resolve_loader_import_builtin_example =
    resolve_loader_import_builtin by_length init_import_table 1000 one_module (λ i. 0)
      (codes "other.dll") iob (init_import_table-IsSorted linked_table).0
      (init_import_table-IsSorted linked_table).1 sorted_table_short iob-Mem
      (λ e. absurd (omega (arith, e)))
