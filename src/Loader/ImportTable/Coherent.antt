-- ===== src/Loader/ImportTable/Coherent.antt =====
-- The table of src/loader/import_table.c gives one symbol to a name, whatever spelling of a library's
-- name it stands under, so a search by the name alone finds the function.
use my_wine.Prelude.{
  ℕ, ◌≡◌, refl, ap, sym, ◌∙◌, inl, inr, Bool, true, false, ◌&&◌, List, [], ◌∷◌, map, Bool-cases,
  if◌then◌else◌,
}
use my_wine.Pe.Exports.Lookup.{strcmp}
use my_wine.Loader.Imports.{ImportEntry, is_same}
use my_wine.Loader.Imports.Order.{Sign-cases, strcmp_self, strcmp_eq}
use my_wine.Loader.ImportTable.{Build, build_32, build_64, source_table, import_table}
use my_wine.Loader.ImportTable.Entry.{TableEntry}
use mathlib.Core.List.{Mem, Memᴰ}
use mathlib.Core.List.Memᴰ
use mathlib.Core.Logic.{∥∥₁_elim}
use mathlib.Core.Bool.{true≢false}

agrees : TableEntry → List TableEntry → Bool
agrees e [] = true
agrees e (f ∷ table) =
    let rest = agrees e table in
    if is_same (strcmp e.table_name f.table_name)
    then is_same (strcmp e.symbol f.symbol) && rest
    else rest

is_coherent : List TableEntry → Bool
unfolding agrees
is_coherent [] = true
is_coherent (e ∷ table) = agrees e table && is_coherent table

source_table-is_coherent : (build : Build) → is_coherent (source_table build) ≡ true
unfolding is_coherent source_table strcmp
source_table-is_coherent build_32 = refl
source_table-is_coherent build_64 = refl

pub is_same-eq : (xs ys : List ℕ) → is_same (strcmp xs ys) ≡ true → xs ≡ ys
is_same-eq xs ys h = elim (Sign-cases (strcmp xs ys)) [
  | inl e ↦ absurd (true≢false (sym h ∙ ap is_same e))
  | inr (inl e) ↦ strcmp_eq xs ys e
  | inr (inr e) ↦ absurd (true≢false (sym h ∙ ap is_same e))
]

pub eq-is_same : (xs ys : List ℕ) → xs ≡ ys → is_same (strcmp xs ys) ≡ true
eq-is_same xs ys e = ap (λ zs. is_same (strcmp xs zs)) (sym e) ∙ ap is_same (strcmp_self xs)

-- An entry as the linker leaves it.
abbrev pub linked_entry : (List ℕ → ℕ) → TableEntry → ImportEntry
linked_entry linked e = record {
  dll_name = e.table_dll;
  name = e.table_name;
  address = linked e.symbol;
}

pub and-split : (a b : Bool) → (a && b) ≡ true → (a ≡ true) × (b ≡ true)
and-split true true h = (refl, refl)
and-split true false h = absurd (true≢false (sym h))
and-split false b h = absurd (true≢false (sym h))

agrees-Mem :
    (linked : List ℕ → ℕ) (e : TableEntry) (table : List TableEntry) (f : ImportEntry)
    → agrees e table ≡ true
    → Memᴰ f (map (linked_entry linked) table)
    → e.table_name ≡ f.name
    → linked e.symbol ≡ f.address
unfolding agrees
agrees-Mem linked e [] f h m n = absurd (Memᴰ.not-nil m)
agrees-Mem linked e (t ∷ table) f h (Memᴰ.head here) n =
    let named = eq-is_same e.table_name t.table_name (n ∙ ap (λ x. x.name) here) in
    let both = and-split (is_same (strcmp e.symbol t.symbol)) (agrees e table) (rw named at h) in
    ap linked (is_same-eq e.symbol t.symbol both.0) ∙ sym (ap (λ x. x.address) here)
agrees-Mem linked e (t ∷ table) f h (Memᴰ.tail m) n =
    let ih = agrees-Mem linked e table f in
    elim (Bool-cases (is_same (strcmp e.table_name t.table_name))) [
      | inl named ↦
          ih (and-split (is_same (strcmp e.symbol t.symbol)) (agrees e table) (rw named at h)).1 m n
      | inr other ↦ ih (rw other at h) m n
    ]

coherent-Mem :
    (linked : List ℕ → ℕ) (table : List TableEntry) (e f : ImportEntry)
    → is_coherent table ≡ true
    → Memᴰ e (map (linked_entry linked) table)
    → Memᴰ f (map (linked_entry linked) table)
    → e.name ≡ f.name
    → e.address ≡ f.address
unfolding is_coherent
coherent-Mem linked [] e f h me mf n = absurd (Memᴰ.not-nil me)
coherent-Mem linked (t ∷ table) e f h (Memᴰ.head a) (Memᴰ.head b) n =
    ap (λ x. x.address) (a ∙ sym b)
coherent-Mem linked (t ∷ table) e f h (Memᴰ.head a) (Memᴰ.tail m) n =
    ap (λ x. x.address) a
    ∙ agrees-Mem linked t table f (and-split (agrees t table) (is_coherent table) h).0 m
        (sym (ap (λ x. x.name) a) ∙ n)
coherent-Mem linked (t ∷ table) e f h (Memᴰ.tail m) (Memᴰ.head b) n = sym (
    ap (λ x. x.address) b
    ∙ agrees-Mem linked t table e (and-split (agrees t table) (is_coherent table) h).0 m
        (sym (ap (λ x. x.name) b) ∙ sym n))
coherent-Mem linked (t ∷ table) e f h (Memᴰ.tail m) (Memᴰ.tail m') n =
    coherent-Mem linked table e f (and-split (agrees t table) (is_coherent table) h).1 m m' n

pub import_table-coherent :
    (linked : List ℕ → ℕ) (build : Build) (e f : ImportEntry)
    → Mem e (import_table linked build)
    → Mem f (import_table linked build)
    → e.name ≡ f.name
    → e.address ≡ f.address
unfolding import_table
import_table-coherent linked build e f me mf n = ∥∥₁_elim me (hlevel) (λ a.
    ∥∥₁_elim mf (hlevel)
      (λ b. coherent-Mem linked (source_table build) e f (source_table-is_coherent build) a b n))
