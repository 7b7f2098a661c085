-- ===== src/Loader/Imports.antt =====
-- src/loader/import_lookup.c and the operations of src/loader/import_table.c: how a name is resolved,
-- first among the loader's own functions and then among the exports of the loaded modules. NULL is
-- none, or the address 0 in the table.
pub mod Order
pub mod Sort
pub mod Search
use my_wine.Prelude.{
  ℕ, zero, suc, ◌+◌, ◌-◌, ◌/◌, Bool, true, false, not, ◌&&◌, List, [], ◌∷◌, Option, none, some,
  length, get_or, set, ltb, leb, ◌==◌, if◌then◌else◌,
}
use my_wine.Pe.Memory.{Bytes}
use my_wine.Pe.Exports.{Module}
use my_wine.Pe.Exports.Lookup.{Sign, below, same, above, strcmp, lookup_export}
use my_wine.Loader.Modules.{Loaded, ModuleList, module_at, find_module_by_name}
use my_wine.Strings.{same_nocase}

-- `import_entry_t`
pub record ImportEntry : Type 0 where
  pub dll_name : List ℕ
  pub name : List ℕ
  pub address : ℕ

abbrev pub no_entry : ImportEntry
no_entry = record { dll_name = []; name = []; address = 0 }

-- import_cmp_by_name, by its sign
unfoldable pub import_cmp_by_name : List ℕ → ImportEntry → Sign
import_cmp_by_name key elem' = strcmp key elem'.name

abbrev pub is_same : Sign → Bool
is_same below = false
is_same same = true
is_same above = false

abbrev pub is_above : Sign → Bool
is_above below = false
is_above same = false
is_above above = true

-- The inner loop of init_import_table and the store behind it, from index `j` down.
unfoldable pub shift : ℕ → ImportEntry → List ImportEntry → List ImportEntry
shift zero key table = set table 0 key
shift (suc j) key table =
    let before = get_or table j no_entry in
    let rest = shift j key (set table (suc j) before) in
    if is_above (strcmp before.name key.name) then rest else set table (suc j) key

-- The outer loop of init_import_table, for `rounds` indices from `i` on.
unfoldable pub sort_from : ℕ → ℕ → List ImportEntry → List ImportEntry
unfolding shift
sort_from zero i table = table
sort_from (suc rounds) i table = sort_from rounds (suc i) (shift i (get_or table i no_entry) table)

-- init_import_table of the 32-bit build; the other build calls qsort with the same comparison.
unfoldable pub init_import_table : List ImportEntry → List ImportEntry
unfolding sort_from
init_import_table table = sort_from (length table - 1) 1 table

-- set_import
unfoldable pub set_import : List ℕ → ℕ → List ImportEntry → List ImportEntry
set_import name address [] = []
set_import name address (e ∷ table) =
    let rest = set_import name address table in
    if is_same (strcmp e.name name) then record e { address = address } ∷ table else e ∷ rest

-- The linear scan of resolve_loader_import, in the 32-bit build.
unfoldable pub scan_table : List ImportEntry → List ℕ → List ℕ → Option ImportEntry
unfolding import_cmp_by_name
scan_table [] dll func = none
scan_table (e ∷ table) dll func =
    let rest = scan_table table dll func in
    if not (same_nocase dll e.dll_name)
    then rest
    else if is_same (import_cmp_by_name func e)
    then some e
    else rest

-- Its binary search, in the 64-bit build; the outer none is fuel that ran out.
unfoldable pub search_table : ℕ → List ImportEntry → List ℕ → ℕ → ℕ → Option (Option ImportEntry)
unfolding import_cmp_by_name
search_table zero table func lo hi = none
search_table (suc fuel) table func lo hi =
    let mid = lo + (hi - lo) / 2 in
    let left = search_table fuel table func lo mid in
    let right = search_table fuel table func (mid + 1) hi in
    let found : Option (Option ImportEntry) =
      elim (import_cmp_by_name func (get_or table mid no_entry)) [
        | below ↦ left
        | above ↦ right
        | same ↦ some (some (get_or table mid no_entry))
      ] in
    if ltb lo hi then found else some none

-- What lookup_export reads of a registered module whose export table was parsed.
unfoldable pub exporter : Bytes → Loaded → Option Module
exporter memory m = elim m.nt [
  | none ↦ none
  | some nt ↦
      some (record { nt = nt; image = λ rva. memory (m.base + rva); cache = m.export_cache })
]

-- The second tier of resolve_loader_import: the exports of the loaded module.
unfoldable pub module_export : ℕ → ModuleList → Bytes → List ℕ → List ℕ → Option (Option ℕ)
unfolding exporter find_module_by_name lookup_export
module_export fuel modules memory dll func = elim (find_module_by_name dll modules) [
  | none ↦ some none
  | some i ↦
      let m = module_at modules i in
      if m.export_cache.number_of_names == 0 then some none else elim (exporter memory m) [
        | none ↦ some none
        | some mod' ↦ elim (lookup_export fuel mod' func) [
          | none ↦ none
          | some none ↦ some none
          | some (some rva) ↦ some (some (m.base + rva))
        ]
      ]
]

-- resolve_loader_import behind the search of the table.
unfoldable pub resolve_from :
    Option ImportEntry → ℕ → ModuleList → Bytes → List ℕ → List ℕ → Option (Option ℕ)
unfolding module_export
resolve_from entry fuel modules memory dll func =
    let tier_2 = module_export fuel modules memory dll func in
    elim entry [ none ↦ tier_2 | some e ↦ if e.address == 0 then tier_2 else some (some e.address) ]

-- resolve_loader_import of the 32-bit build
unfoldable pub resolve_loader_import_32 :
    ℕ → List ImportEntry → ModuleList → Bytes → List ℕ → List ℕ → Option (Option ℕ)
unfolding resolve_from scan_table
resolve_loader_import_32 fuel table modules memory dll func =
    resolve_from (scan_table table dll func) fuel modules memory dll func

-- resolve_loader_import of the 64-bit build
unfoldable pub resolve_loader_import :
    ℕ → List ImportEntry → ModuleList → Bytes → List ℕ → List ℕ → Option (Option ℕ)
unfolding resolve_from search_table
resolve_loader_import fuel table modules memory dll func =
    elim (search_table fuel table func 0 (length table)) [
      | none ↦ none
      | some entry ↦ resolve_from entry fuel modules memory dll func
    ]
