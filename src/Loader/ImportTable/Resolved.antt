-- ===== src/Loader/ImportTable/Resolved.antt =====
-- Resolving a name among the loader's own functions: init_msvcrt_imports, init_import_table, then
-- resolve_loader_import.
use my_wine.Prelude.{
  ℕ, zero, suc, ◌<◌, ◌≡◌, ◌≢◌, refl, ap, sym, ◌∙◌, arith, inl, inr, false, List, [], ◌∷◌, some,
  length, get_or, Bool-cases, ◌==◌,
}
use my_wine.Pe.Memory.{Bytes}
use my_wine.Pe.Exports.Lookup.{strcmp}
use my_wine.Loader.Modules.{ModuleList}
use my_wine.Loader.Imports.{
  ImportEntry, no_entry, is_same, search_table, scan_table, resolve_from, resolve_loader_import,
  resolve_loader_import_32, import_cmp_by_name,
}
use my_wine.Loader.Imports.Sort.{IsSorted}
use my_wine.Loader.Imports.Search.{IsFound, search_table_finds}
use my_wine.Loader.ImportTable.{build_64, import_table}
use my_wine.Loader.ImportTable.Coherent.{is_same-eq}
use my_wine.Loader.ImportTable.Shims.{
  init_msvcrt_imports, init_import_table_64, init_msvcrt_imports-Coherent,
}
use my_wine.Strings.{same_nocase}
use mathlib.Core.List.{Mem, Memᴰ, Perm}
use mathlib.Core.List.Memᴰ
use mathlib.Core.List.Perm
use mathlib.Core.Logic.{∥∥₁_elim}

pub Mem-get_or :
    (table : List ImportEntry) (i : ℕ) → i < length table → Memᴰ (get_or table i no_entry) table
Mem-get_or [] i b = absurd (omega arith)
Mem-get_or (e ∷ table) zero b = Memᴰ.head refl
Mem-get_or (e ∷ table) (suc i) b = Memᴰ.tail (Mem-get_or table i (omega arith))

index_of :
    (table : List ImportEntry) (e : ImportEntry)
    → Memᴰ e table
    → (i : ℕ) × (i < length table) × (get_or table i no_entry ≡ e)
index_of [] e m = absurd (Memᴰ.not-nil m)
index_of (t ∷ table) e (Memᴰ.head h) = (0, omega arith, sym h)
index_of (t ∷ table) e (Memᴰ.tail m) =
    let r = index_of table e m in (suc r.0, omega (arith, r.1), r.2)

scan_table-Mem :
    (table : List ImportEntry) (dll func : List ℕ) (e : ImportEntry)
    → scan_table table dll func ≡ some e
    → Memᴰ e table × (e.name ≡ func)
unfolding scan_table import_cmp_by_name
scan_table-Mem [] dll func e h = absurd cc
scan_table-Mem (t ∷ table) dll func e h =
    let ih = scan_table-Mem table dll func e in
    elim (Bool-cases (same_nocase dll t.dll_name)) [
      | inr other ↦ let r = ih (rw other at h) in (Memᴰ.tail r.0, r.1)
      | inl named ↦ elim (Bool-cases (is_same (strcmp func t.name))) [
        | inr other ↦ let r = ih (rw (named, other) at h) in (Memᴰ.tail r.0, r.1)
        | inl here ↦
            let e' : some t ≡ some e = rw (named, here) at h in
            let t_e : t ≡ e = cc in
            (Memᴰ.head (sym t_e), ap (λ x. x.name) (sym t_e) ∙ sym (is_same-eq func t.name here))
      ]
    ]

-- What the search relies on: names that ascend, one address for a name, and fuel.
pub record Ready (fuel : ℕ) (table : List ImportEntry) : Type 0 where
  pub sorted : IsSorted table
  pub coherent :
      (e f : ImportEntry) → Memᴰ e table → Memᴰ f table → e.name ≡ f.name → e.address ≡ f.address
  pub enough : length table < fuel

search_table-Ready :
    (fuel : ℕ) (table : List ImportEntry) (e : ImportEntry)
    → Ready fuel table
    → Memᴰ e table
    → (f : ImportEntry) × (search_table fuel table e.name 0 (length table) ≡ some (some f))
      × (f.address ≡ e.address)
unfolding IsFound
search_table-Ready fuel table e ready m =
    let found = search_table_finds fuel table e.name ready.sorted ready.enough in
    elim found.2 [
      | inl nothing ↦
          let i = index_of table e m in absurd (nothing.1 i.0 i.1 (ap (λ x. x.name) i.2))
      | inr there ↦
          let f = get_or table there.0 no_entry in
          (
            f,
            found.1 ∙ ap some there.3,
            ready.coherent f e (Mem-get_or table there.0 there.1) m there.2,
          )
    ]

-- On a table whose names ascend and that gives one address to a name, where the scan by library and
-- name of the 32-bit build finds an entry whose address is not NULL, the search by name alone of the
-- 64-bit build, with more fuel than there are entries, resolves the import to the same address.
pub resolve_loader_import-eq :
    (fuel : ℕ) (table : List ImportEntry) (modules : ModuleList) (memory : Bytes)
    (dll func : List ℕ) (e : ImportEntry)
    → Ready fuel table
    → scan_table table dll func ≡ some e
    → e.address ≢ 0
    → resolve_loader_import fuel table modules memory dll func
      ≡ resolve_loader_import_32 fuel table modules memory dll func
unfolding resolve_loader_import resolve_loader_import_32 resolve_from
resolve_loader_import-eq fuel table modules memory dll func e ready scanned known =
    let m = scan_table-Mem table dll func e scanned in
    let found = search_table-Ready fuel table e ready m.0 in
    let search : search_table fuel table func 0 (length table) ≡ some (some found.0) =
      ap (λ n. search_table fuel table n 0 (length table)) (sym m.1) ∙ found.1 in
    let a : (e.address == 0) ≡ false = ground arith in
    rw (resolve_loader_import, search, scanned, found.2, a) refl

-- In the 64-bit build, after init_msvcrt_imports and then init_import_table, with a qsort that sorts the
-- entries by name and keeps them, resolve_loader_import resolves the name of every entry of the
-- table that init_msvcrt_imports leaves, if its address is not NULL, to that address, with more
-- fuel than there are entries, whatever library is asked for.
pub resolve_loader_import_builtin :
    (linked : List ℕ → ℕ) (qsort : List ImportEntry → List ImportEntry) (fuel : ℕ)
    (modules : ModuleList) (memory : Bytes) (dll : List ℕ) (e : ImportEntry)
    → let table = init_msvcrt_imports linked build_64 (import_table linked build_64) in
      IsSorted (qsort table)
      → Perm (qsort table) table
      → length (qsort table) < fuel
      → Mem e table
      → e.address ≢ 0
      → resolve_loader_import fuel (init_import_table_64 qsort table) modules memory dll e.name
        ≡ some (some e.address)
unfolding resolve_loader_import resolve_from init_import_table_64
resolve_loader_import_builtin linked qsort fuel modules memory dll e sorted perm enough m known =
    let table = init_msvcrt_imports linked build_64 (import_table linked build_64) in
    let coherent = init_msvcrt_imports-Coherent linked in
    let ready : Ready fuel (qsort table) = record {
      sorted = sorted;
      coherent = λ f g mf mg n.
          ∥∥₁_elim ((Perm.mem_iff perm).0 ∣ mf ∣₁) (hlevel)
            (λ a. ∥∥₁_elim ((Perm.mem_iff perm).0 ∣ mg ∣₁) (hlevel) (λ b. coherent f g a b n));
      enough = enough;
    } in
    let a : (e.address == 0) ≡ false = ground arith in
    ∥∥₁_elim ((Perm.mem_iff perm).1 m) (hlevel) (λ d.
      let found = search_table-Ready fuel (qsort table) e ready d in
      rw (resolve_loader_import, found.1, found.2, a) refl)
