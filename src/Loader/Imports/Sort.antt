-- ===== src/Loader/Imports/Sort.antt =====
-- init_import_table of src/loader/import_table.c sorts the table by name and keeps its entries.
use my_wine.Prelude.{
  ℕ, zero, suc, ◌+◌, ◌-◌, ◌≡◌, ◌≢◌, refl, ap, sym, ◌∙◌, arith, inl, inr, true, false, List, [], ◌∷◌,
  ◌++◌, length, length-set, get_or, set, Bool-cases, if◌then◌else◌,
}
use my_wine.Pe.Exports.Lookup.{Sign, above, strcmp}
use my_wine.Loader.Imports.{ImportEntry, no_entry, is_above, shift, sort_from, init_import_table}
use my_wine.Loader.Imports.Order.{AtMost, AtMost-trans, AtMost-total, Sign-cases}
use mathlib.Core.List.{Perm, perm_middle}
use mathlib.Core.List.Perm
use mathlib.Core.Bool.{true≢false}

-- An entry put into a table that is listed backwards.
insert_back : ImportEntry → List ImportEntry → List ImportEntry
insert_back key [] = key ∷ []
insert_back key (e ∷ prefix) =
    let rest = insert_back key prefix in
    if is_above (strcmp e.name key.name) then e ∷ rest else key ∷ e ∷ prefix

-- A list backwards, in front of another.
onto : List ImportEntry → List ImportEntry → List ImportEntry
onto [] suffix = suffix
onto (e ∷ prefix) suffix = onto prefix (e ∷ suffix)

get-onto :
    (prefix suffix : List ImportEntry) (k : ℕ)
    → get_or (onto prefix suffix) (length prefix + k) no_entry ≡ get_or suffix k no_entry
unfolding onto
get-onto [] suffix k = let z : 0 + k ≡ k = omega arith in rw z refl
get-onto (e ∷ prefix) suffix k =
    let i : suc (length prefix) + k ≡ length prefix + suc k = omega arith in
    rw i (get-onto prefix (e ∷ suffix) (suc k))

set-onto :
    (prefix suffix : List ImportEntry) (k : ℕ) (v : ImportEntry)
    → set (onto prefix suffix) (length prefix + k) v ≡ onto prefix (set suffix k v)
unfolding onto
set-onto [] suffix k v = let z : 0 + k ≡ k = omega arith in rw z refl
set-onto (e ∷ prefix) suffix k v =
    let i : suc (length prefix) + k ≡ length prefix + suc k = omega arith in
    rw i (set-onto prefix (e ∷ suffix) (suc k) v)

-- The shifts of one round of the outer loop.
shift-onto :
    (prefix suffix : List ImportEntry) (hole key : ImportEntry)
    → shift (length prefix) key (onto prefix (hole ∷ suffix)) ≡ onto (insert_back key prefix) suffix
unfolding shift onto insert_back
shift-onto [] suffix hole key = refl
shift-onto (e ∷ prefix) suffix hole key =
    let i : length prefix ≡ length prefix + 0 = omega arith in
    let j : suc (length prefix) ≡ length prefix + 1 = omega arith in
    let here : get_or (onto prefix (e ∷ hole ∷ suffix)) (length prefix) no_entry ≡ e =
      ap (λ n. get_or (onto prefix (e ∷ hole ∷ suffix)) n no_entry) i
      ∙ get-onto prefix (e ∷ hole ∷ suffix) 0 in
    let put : (v : ImportEntry)
        → set (onto prefix (e ∷ hole ∷ suffix)) (suc (length prefix)) v
          ≡ onto prefix (e ∷ v ∷ suffix) =
      λ v.
        ap (λ n. set (onto prefix (e ∷ hole ∷ suffix)) n v) j
        ∙ set-onto prefix (e ∷ hole ∷ suffix) 1 v in
    elim (Bool-cases (is_above (strcmp e.name key.name))) [
      | inl more ↦ rw (here, more, put e) (shift-onto prefix (e ∷ suffix) e key)
      | inr less ↦ rw (here, less, put key) refl
    ]

-- All rounds.
insert_all : List ImportEntry → List ImportEntry → List ImportEntry
insert_all prefix [] = prefix
insert_all prefix (e ∷ suffix) = insert_all (insert_back e prefix) suffix

length-insert_back :
    (key : ImportEntry) (prefix : List ImportEntry)
    → length (insert_back key prefix) ≡ suc (length prefix)
unfolding insert_back
length-insert_back key [] = refl
length-insert_back key (e ∷ prefix) =
    let ih = length-insert_back key prefix in
    elim (Bool-cases (is_above (strcmp e.name key.name))) [
      | inl more ↦ rw (more, ih) refl
      | inr less ↦ rw less refl
    ]

sort_from-onto :
    (suffix prefix : List ImportEntry)
    → sort_from (length suffix) (length prefix) (onto prefix suffix)
      ≡ onto (insert_all prefix suffix) []
unfolding sort_from insert_all onto
sort_from-onto [] prefix = refl
sort_from-onto (e ∷ suffix) prefix =
    let i : length prefix ≡ length prefix + 0 = omega arith in
    let here : get_or (onto prefix (e ∷ suffix)) (length prefix) no_entry ≡ e =
      ap (λ n. get_or (onto prefix (e ∷ suffix)) n no_entry) i ∙ get-onto prefix (e ∷ suffix) 0 in
    rw (sort_from, here, shift-onto prefix suffix e e, ← length-insert_back e prefix)
      (sort_from-onto suffix (insert_back e prefix))

Perm-append_nil : (xs : List ImportEntry) → Perm (xs ++ []) xs
Perm-append_nil [] = Perm.refl []
Perm-append_nil (x ∷ xs) = Perm.cons x (Perm-append_nil xs)

-- Every name stands before the one key, or behind it.
abbrev AllBefore : List ImportEntry → List ℕ → Type 0
AllBefore [] key = Unit {0}
AllBefore (e ∷ entries) key = AtMost e.name key × AllBefore entries key

abbrev pub AllBehind : List ℕ → List ImportEntry → Type 0
AllBehind key [] = Unit {0}
AllBehind key (e ∷ entries) = AtMost key e.name × AllBehind key entries

-- The names of a table ascend.
abbrev pub IsSorted : List ImportEntry → Type 0
IsSorted [] = Unit {0}
IsSorted (e ∷ table) = AllBehind e.name table × IsSorted table

abbrev IsDescending : List ImportEntry → Type 0
IsDescending [] = Unit {0}
IsDescending (e ∷ prefix) = AllBefore prefix e.name × IsDescending prefix

AllBefore-trans :
    (entries : List ImportEntry) (a b : List ℕ)
    → AllBefore entries a
    → AtMost a b
    → AllBefore entries b
AllBefore-trans [] a b h ab = tt
AllBefore-trans (e ∷ entries) a b h ab =
    (AtMost-trans e.name a b h.0 ab, AllBefore-trans entries a b h.1 ab)

AllBefore-insert_back :
    (key : ImportEntry) (prefix : List ImportEntry) (a : List ℕ)
    → AllBefore prefix a
    → AtMost key.name a
    → AllBefore (insert_back key prefix) a
unfolding insert_back
AllBefore-insert_back key [] a h k = (k, tt)
AllBefore-insert_back key (e ∷ prefix) a h k =
    let ih = AllBefore-insert_back key prefix a h.1 k in
    elim (Bool-cases (is_above (strcmp e.name key.name))) [
      | inl more ↦ rw more (h.0, ih)
      | inr less ↦ rw less ((k, h))
    ]

is_above-AtMost : (s : Sign) → is_above s ≡ false → s ≢ above
is_above-AtMost s h e = absurd (true≢false (sym (ap is_above e) ∙ h))

above-AtMost : (xs ys : List ℕ) → is_above (strcmp xs ys) ≡ true → AtMost ys xs
above-AtMost xs ys h = elim (AtMost-total ys xs) [
  | inl a ↦ a
  | inr b ↦ absurd (elim (Sign-cases (strcmp xs ys)) [
    | inl e ↦ true≢false (sym h ∙ ap is_above e)
    | inr (inl e) ↦ true≢false (sym h ∙ ap is_above e)
    | inr (inr e) ↦ b e
  ])
]

insert_back-IsDescending :
    (key : ImportEntry) (prefix : List ImportEntry)
    → IsDescending prefix
    → IsDescending (insert_back key prefix)
unfolding insert_back
insert_back-IsDescending key [] h = (tt, tt)
insert_back-IsDescending key (e ∷ prefix) h =
    let ih = insert_back-IsDescending key prefix h.1 in
    elim (Bool-cases (is_above (strcmp e.name key.name))) [
      | inl more ↦
          rw more
            ((AllBefore-insert_back key prefix e.name h.0 (above-AtMost e.name key.name more), ih))
      | inr less ↦
          let l = is_above-AtMost (strcmp e.name key.name) less in
          rw less (((l, AllBefore-trans prefix e.name key.name h.0 l), h))
    ]

insert_all-IsDescending :
    (prefix suffix : List ImportEntry)
    → IsDescending prefix
    → IsDescending (insert_all prefix suffix)
unfolding insert_all
insert_all-IsDescending prefix [] h = h
insert_all-IsDescending prefix (e ∷ suffix) h =
    insert_all-IsDescending (insert_back e prefix) suffix (insert_back-IsDescending e prefix h)

-- Each entry of the one list stands before every entry of the other.
abbrev Between : List ImportEntry → List ImportEntry → Type 0
Between [] suffix = Unit {0}
Between (e ∷ prefix) suffix = AllBehind e.name suffix × Between prefix suffix

Between-cons :
    (prefix suffix : List ImportEntry) (e : ImportEntry)
    → AllBefore prefix e.name
    → Between prefix suffix
    → Between prefix (e ∷ suffix)
Between-cons [] suffix e a b = tt
Between-cons (p ∷ prefix) suffix e a b = ((a.0, b.0), Between-cons prefix suffix e a.1 b.1)

Between-nil : (prefix : List ImportEntry) → Between prefix []
Between-nil [] = tt
Between-nil (e ∷ prefix) = (tt, Between-nil prefix)

onto-IsSorted :
    (prefix suffix : List ImportEntry)
    → IsDescending prefix
    → IsSorted suffix
    → Between prefix suffix
    → IsSorted (onto prefix suffix)
unfolding onto
onto-IsSorted [] suffix d s b = s
onto-IsSorted (e ∷ prefix) suffix d s b =
    onto-IsSorted prefix (e ∷ suffix) d.1 (b.0, s) (Between-cons prefix suffix e d.0 b.1)

onto-Perm : (prefix suffix : List ImportEntry) → Perm (onto prefix suffix) (prefix ++ suffix)
unfolding onto
onto-Perm [] suffix = Perm.refl suffix
onto-Perm (e ∷ prefix) suffix =
    Perm.trans (onto-Perm prefix (e ∷ suffix)) (perm_middle prefix suffix)

insert_back-Perm :
    (key : ImportEntry) (prefix : List ImportEntry) → Perm (insert_back key prefix) (key ∷ prefix)
unfolding insert_back
insert_back-Perm key [] = Perm.refl (key ∷ [])
insert_back-Perm key (e ∷ prefix) =
    let ih = insert_back-Perm key prefix in
    elim (Bool-cases (is_above (strcmp e.name key.name))) [
      | inl more ↦ rw more (Perm.trans (Perm.cons e ih) (Perm.swap key e prefix))
      | inr less ↦ rw less (Perm.refl (key ∷ e ∷ prefix))
    ]

insert_all-Perm :
    (prefix suffix : List ImportEntry) → Perm (insert_all prefix suffix) (prefix ++ suffix)
unfolding insert_all
insert_all-Perm prefix [] = Perm.symm (Perm-append_nil prefix)
insert_all-Perm prefix (e ∷ suffix) = Perm.trans (insert_all-Perm (insert_back e prefix) suffix) (
    Perm.trans (Perm.append (insert_back-Perm e prefix) (Perm.refl suffix))
      (Perm.symm (perm_middle prefix suffix)))

init_import_table-insert_all :
    (table : List ImportEntry) → init_import_table table ≡ onto (insert_all [] table) []
unfolding init_import_table insert_all onto insert_back
init_import_table-insert_all [] = refl
init_import_table-insert_all (e ∷ table) =
    let n : suc (length table) - 1 ≡ length table = omega arith in
    rw n (sort_from-onto table (e ∷ []))

-- After init_import_table the names of the table ascend, and its entries are the ones it had.
pub init_import_table-IsSorted :
    (table : List ImportEntry)
    → IsSorted (init_import_table table) × Perm (init_import_table table) table
init_import_table-IsSorted table =
    let all = insert_all [] table in
    let sorted = onto-IsSorted all [] (insert_all-IsDescending [] table tt) tt (Between-nil all) in
    let perm =
      Perm.trans (onto-Perm all []) (Perm.trans (Perm-append_nil all) (insert_all-Perm [] table)) in
    rw (init_import_table-insert_all table) (sorted, perm)

length-shift :
    (j : ℕ) (key : ImportEntry) (table : List ImportEntry)
    → length (shift j key table) ≡ length table
unfolding shift
length-shift zero key table = length-set table 0 key
length-shift (suc j) key table =
    let before = get_or table j no_entry in
    let ih = length-shift j key (set table (suc j) before) in
    elim (Bool-cases (is_above (strcmp before.name key.name))) [
      | inl more ↦ rw more (ih ∙ length-set table (suc j) before)
      | inr less ↦ rw less (length-set table (suc j) key)
    ]

length-sort_from :
    (rounds i : ℕ) (table : List ImportEntry) → length (sort_from rounds i table) ≡ length table
unfolding sort_from
length-sort_from zero i table = refl
length-sort_from (suc rounds) i table =
    let key = get_or table i no_entry in
    length-sort_from rounds (suc i) (shift i key table) ∙ length-shift i key table

pub length-init_import_table :
    (table : List ImportEntry) → length (init_import_table table) ≡ length table
unfolding init_import_table
length-init_import_table table = length-sort_from (length table - 1) 1 table
