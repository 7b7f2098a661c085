-- ===== src/Loader/ImportTable/Shims.antt =====
-- src/loader/import_init.c, which puts the loader's own C runtime into the import table, and the
-- sort that follows it in the 64-bit build.
use my_wine.Prelude.{
  ℕ, ◌≡◌, refl, ap, sym, ◌∙◌, inl, inr, ◌⊎◌, ◌≢◌, Bool, true, false, ◌&&◌, List, [], ◌∷◌, map,
  Bool-cases, if◌then◌else◌,
}
use my_wine.Pe.Exports.Lookup.{strcmp}
use my_wine.Loader.Imports.{ImportEntry, is_same, set_import}
use my_wine.Loader.ImportTable.{Build, build_32, build_64, source_table, import_table}
use my_wine.Loader.ImportTable.Coherent.{is_same-eq, eq-is_same, and-split, import_table-coherent}
use my_wine.Strings.{String, codes}
use mathlib.Core.List.{Memᴰ}
use mathlib.Core.List.Memᴰ
use mathlib.Core.Bool.{true≢false}

-- A call of set_import: the name, and the symbol whose address it gets.
abbrev shim : String → String → List ℕ × List ℕ
shim name symbol = (codes name, codes symbol)

abbrev pub msvcrt_shims : List (List ℕ × List ℕ)
msvcrt_shims =
    shim "abort" "__msvcrt_abort"
    ∷ shim "calloc" "__msvcrt_calloc"
    ∷ shim "exit" "__msvcrt_exit"
    ∷ shim "fprintf" "__msvcrt_fprintf"
    ∷ shim "free" "__msvcrt_free"
    ∷ shim "fwrite" "__msvcrt_fwrite"
    ∷ shim "malloc" "__msvcrt_malloc"
    ∷ shim "memcpy" "__msvcrt_memcpy"
    ∷ shim "realloc" "__msvcrt_realloc"
    ∷ shim "signal" "__msvcrt_signal"
    ∷ shim "strlen" "__msvcrt_strlen"
    ∷ shim "strncmp" "__msvcrt_strncmp"
    ∷ shim "vfprintf" "__msvcrt_vfprintf"
    ∷ shim "___lc_codepage_func" "__msvcrt___lc_codepage_func"
    ∷ shim "___mb_cur_max_func" "__msvcrt___mb_cur_max_func"
    ∷ shim "_errno" "__msvcrt__errno_func"
    ∷ shim "_lock" "__msvcrt__lock"
    ∷ shim "_unlock" "__msvcrt__unlock"
    ∷ shim "fputc" "__msvcrt_fputc"
    ∷ shim "localeconv" "__msvcrt_localeconv"
    ∷ shim "strerror" "__msvcrt_strerror"
    ∷ shim "wcslen" "__msvcrt_wcslen"
    ∷ shim "__p__acmdln" "__p__acmdln_func"
    ∷ shim "__p__commode" "__p__commode_func"
    ∷ shim "__p__fmode" "__p__fmode_func"
    ∷ shim "_iob" "__wine_iob_data"
    ∷ []

unfoldable pub set_imports :
    (List ℕ → ℕ) → List (List ℕ × List ℕ) → List ImportEntry → List ImportEntry
set_imports linked [] table = table
set_imports linked (s ∷ shims) table = set_imports linked shims (set_import s.0 (linked s.1) table)

-- init_msvcrt_imports
unfoldable pub init_msvcrt_imports : (List ℕ → ℕ) → Build → List ImportEntry → List ImportEntry
init_msvcrt_imports linked build_32 table = table
init_msvcrt_imports linked build_64 table = set_imports linked msvcrt_shims table

-- init_import_table of the 64-bit build, by the qsort of the C library.
unfoldable pub init_import_table_64 :
    (List ImportEntry → List ImportEntry) → List ImportEntry → List ImportEntry
init_import_table_64 qsort table = qsort table

abbrev names : List ImportEntry → List (List ℕ)
names table = map (λ e. e.name) table

-- No name is this one, or at most one is.
absent : List ℕ → List (List ℕ) → Bool
absent n [] = true
absent n (m ∷ ms) = let rest = absent n ms in if is_same (strcmp m n) then false else rest

once : List ℕ → List (List ℕ) → Bool
unfolding absent
once n [] = true
once n (m ∷ ms) = let rest = once n ms in if is_same (strcmp m n) then absent n ms else rest

all_once : List (List ℕ × List ℕ) → List (List ℕ) → Bool
unfolding once
all_once [] ms = true
all_once (s ∷ shims) ms = once s.0 ms && all_once shims ms

names-set_import :
    (n : List ℕ) (a : ℕ) (table : List ImportEntry) → names (set_import n a table) ≡ names table
unfolding set_import
names-set_import n a [] = refl
names-set_import n a (e ∷ table) = elim (Bool-cases (is_same (strcmp e.name n))) [
  | inl here ↦ rw here refl
  | inr other ↦ rw other (ap (λ ms. e.name ∷ ms) (names-set_import n a table))
]

absent-Mem :
    (n : List ℕ) (table : List ImportEntry) (e : ImportEntry)
    → absent n (names table) ≡ true
    → Memᴰ e table
    → e.name ≢ n
unfolding absent
absent-Mem n [] e h m same = absurd (Memᴰ.not-nil m)
absent-Mem n (t ∷ table) e h (Memᴰ.head here) same =
    let named = eq-is_same t.name n (ap (λ x. x.name) (sym here) ∙ same) in
    let gone : false ≡ true = rw named at h in absurd (true≢false (sym gone))
absent-Mem n (t ∷ table) e h (Memᴰ.tail m) same = elim (Bool-cases (is_same (strcmp t.name n))) [
  | inl here ↦ let gone : false ≡ true = rw here at h in absurd (true≢false (sym gone))
  | inr other ↦ absent-Mem n table e (rw other at h) m same
]

-- With one entry at most of a name, set_import gives that name the address, and leaves the others.
set_import-Mem :
    (n : List ℕ) (a : ℕ) (table : List ImportEntry) (f : ImportEntry)
    → once n (names table) ≡ true
    → Memᴰ f (set_import n a table)
    → ((f.name ≡ n) × (f.address ≡ a)) ⊎ (Memᴰ f table × (f.name ≢ n))
unfolding set_import once
set_import-Mem n a [] f h m = absurd (Memᴰ.not-nil m)
set_import-Mem n a (t ∷ table) f h m = elim (Bool-cases (is_same (strcmp t.name n))) [
  | inl here ↦ replaced (rw here at m) (rw here at h) (is_same-eq t.name n here)
  | inr other ↦ later (set_import-Mem n a table f) (rw other at m) (rw other at h) other
]
  where
    replaced :
        Memᴰ f (record t { address = a } ∷ table)
        → absent n (names table) ≡ true
        → t.name ≡ n
        → ((f.name ≡ n) × (f.address ≡ a)) ⊎ (Memᴰ f (t ∷ table) × (f.name ≢ n))
    replaced (Memᴰ.head e) gone named = inl (ap (λ x. x.name) e ∙ named, ap (λ x. x.address) e)
    replaced (Memᴰ.tail rest) gone named = inr (Memᴰ.tail rest, absent-Mem n table f gone rest)

    later :
        (once n (names table) ≡ true
          → Memᴰ f (set_import n a table)
          → ((f.name ≡ n) × (f.address ≡ a)) ⊎ (Memᴰ f table × (f.name ≢ n)))
        → Memᴰ f (t ∷ set_import n a table)
        → once n (names table) ≡ true
        → is_same (strcmp t.name n) ≡ false
        → ((f.name ≡ n) × (f.address ≡ a)) ⊎ (Memᴰ f (t ∷ table) × (f.name ≢ n))
    later ih (Memᴰ.head e) single other = inr (
      Memᴰ.head e,
      λ named.
          absurd
            (true≢false (sym (eq-is_same t.name n (ap (λ x. x.name) (sym e) ∙ named)) ∙ other)),
    )
    later ih (Memᴰ.tail rest) single other = elim (ih single rest) [
      | inl set_here ↦ inl set_here
      | inr kept ↦ inr (Memᴰ.tail kept.0, kept.1)
    ]

-- One address for a name.
abbrev pub Coherent : List ImportEntry → Type 0
Coherent table =
    (e f : ImportEntry) → Memᴰ e table → Memᴰ f table → e.name ≡ f.name → e.address ≡ f.address

set_import-Coherent :
    (n : List ℕ) (a : ℕ) (table : List ImportEntry)
    → once n (names table) ≡ true
    → Coherent table
    → Coherent (set_import n a table)
set_import-Coherent n a table single coherent e f me mf named =
    elim (set_import-Mem n a table e single me) [
      | inl e_set ↦ elim (set_import-Mem n a table f single mf) [
        | inl f_set ↦ e_set.1 ∙ sym f_set.1
        | inr f_kept ↦ absurd (f_kept.1 (sym named ∙ e_set.0))
      ]
      | inr e_kept ↦ elim (set_import-Mem n a table f single mf) [
        | inl f_set ↦ absurd (e_kept.1 (named ∙ f_set.0))
        | inr f_kept ↦ coherent e f e_kept.0 f_kept.0 named
      ]
    ]

set_imports-Coherent :
    (linked : List ℕ → ℕ) (shims : List (List ℕ × List ℕ)) (table : List ImportEntry)
    → all_once shims (names table) ≡ true
    → Coherent table
    → Coherent (set_imports linked shims table)
unfolding set_imports all_once
set_imports-Coherent linked [] table h coherent = coherent
set_imports-Coherent linked (s ∷ shims) table h coherent =
    let both = and-split (once s.0 (names table)) (all_once shims (names table)) h in
    set_imports-Coherent linked shims (set_import s.0 (linked s.1) table)
      (ap (all_once shims) (names-set_import s.0 (linked s.1) table) ∙ both.1)
      (set_import-Coherent s.0 (linked s.1) table both.0 coherent)

-- No name that init_msvcrt_imports sets stands in the table twice.
shims-all_once :
    (linked : List ℕ → ℕ) → all_once msvcrt_shims (names (import_table linked build_64)) ≡ true
unfolding all_once import_table source_table strcmp
shims-all_once linked = refl

pub init_msvcrt_imports-Coherent :
    (linked : List ℕ → ℕ)
    → Coherent (init_msvcrt_imports linked build_64 (import_table linked build_64))
unfolding init_msvcrt_imports
init_msvcrt_imports-Coherent linked =
    set_imports-Coherent linked msvcrt_shims (import_table linked build_64) (shims-all_once linked)
      (λ e f me mf named. import_table-coherent linked build_64 e f ∣ me ∣₁ ∣ mf ∣₁ named)
