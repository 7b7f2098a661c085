-- ===== src/Loader/Imports/Search.antt =====
-- The binary search of resolve_loader_import, in src/loader/import_lookup.c, on a sorted table.
use my_wine.Prelude.{
  ℕ, zero, suc, ◌+◌, ◌-◌, ◌/◌, ◌≤◌, ◌<◌, ◌≡◌, ◌≢◌, refl, ap, sym, ◌∙◌, arith, inl, inr, ◌⊎◌, List,
  [], ◌∷◌, Option, none, some, length, get_or, ltb, Bool-cases, order_cases,
}
use my_wine.Pe.Exports.Lookup.{below, same, above, strcmp}
use my_wine.Loader.Imports.{ImportEntry, no_entry, import_cmp_by_name, search_table}
use my_wine.Loader.Imports.Order.{
  AtMost, opposite, same≢above, same≢below, strcmp_eq, strcmp_swap, strcmp_self, Sign-cases,
}
use my_wine.Loader.Imports.Sort.{AllBehind, IsSorted}

abbrev pub name_of : List ImportEntry → ℕ → List ℕ
name_of table i = (get_or table i no_entry).name

AllBehind-index :
    (table : List ImportEntry) (key : List ℕ) (i : ℕ)
    → AllBehind key table
    → i < length table
    → AtMost key (name_of table i)
AllBehind-index [] key i h b = absurd (omega arith)
AllBehind-index (e ∷ table) key zero h b = h.0
AllBehind-index (e ∷ table) key (suc i) h b = AllBehind-index table key i h.1 (omega arith)

IsSorted-index :
    (table : List ImportEntry) (i j : ℕ)
    → IsSorted table
    → i < j
    → j < length table
    → AtMost (name_of table i) (name_of table j)
IsSorted-index [] i j h lt b = absurd (omega arith)
IsSorted-index (e ∷ table) i zero h lt b = absurd (omega arith)
IsSorted-index (e ∷ table) zero (suc j) h lt b = AllBehind-index table e.name j h.0 (omega arith)
IsSorted-index (e ∷ table) (suc i) (suc j) h lt b =
    IsSorted-index table i j h.1 (omega arith) (omega arith)

-- What the search may answer: nothing if no entry has the name, or an entry that has it.
unfoldable pub IsFound : List ImportEntry → List ℕ → Option ImportEntry → Type 0
IsFound table func r =
    ((r ≡ none) × ((i : ℕ) → i < length table → name_of table i ≢ func))
    ⊎ ((i : ℕ) × (i < length table)
        × (name_of table i ≡ func)
        × (r ≡ some (get_or table i no_entry)))

-- The names outside of the range are not the one that is looked for.
record Narrowed (table : List ImportEntry) (func : List ℕ) (lo hi : ℕ) : Type 0 where
  top : hi ≤ length table
  ordered : lo ≤ hi
  left_of : (i : ℕ) → i < lo → name_of table i ≢ func
  right_of : (i : ℕ) → hi ≤ i → i < length table → name_of table i ≢ func

-- A name above the one in the middle is not in front of it.
not_before :
    (table : List ImportEntry) (func : List ℕ) (mid i : ℕ)
    → IsSorted table
    → strcmp func (name_of table mid) ≡ above
    → i < mid + 1
    → mid < length table
    → name_of table i ≢ func
not_before table func mid i s up lt b e = elim (order_cases i mid) [
  | inl lower ↦ IsSorted-index table i mid s lower b (ap (λ n. strcmp n (name_of table mid)) e ∙ up)
  | inr (inl here) ↦
      let self : strcmp func (name_of table mid) ≡ same =
        ap (λ n. strcmp func n) (ap (name_of table) (sym here) ∙ e) ∙ strcmp_self func in
      same≢above (sym self ∙ up)
  | inr (inr higher) ↦ absurd (omega arith)
]

not_behind :
    (table : List ImportEntry) (func : List ℕ) (mid i : ℕ)
    → IsSorted table
    → strcmp func (name_of table mid) ≡ below
    → mid ≤ i
    → i < length table
    → name_of table i ≢ func
not_behind table func mid i s down le b e = elim (order_cases mid i) [
  | inl lower ↦
      let flip = strcmp_swap func (name_of table mid) in
      let up : strcmp (name_of table mid) func ≡ above = flip ∙ ap opposite down in
      IsSorted-index table mid i s lower b (ap (λ n. strcmp (name_of table mid) n) e ∙ up)
  | inr (inl here) ↦
      let self : strcmp func (name_of table mid) ≡ same =
        ap (λ n. strcmp func n) (ap (name_of table) here ∙ e) ∙ strcmp_self func in
      same≢below (sym self ∙ down)
  | inr (inr higher) ↦ absurd (omega arith)
]

search_narrows :
    (fuel : ℕ) (table : List ImportEntry) (func : List ℕ) (lo hi : ℕ)
    → IsSorted table
    → Narrowed table func lo hi
    → hi < fuel + lo
    → (r : Option ImportEntry) × (search_table fuel table func lo hi ≡ some r)
      × IsFound table func r
unfolding search_table import_cmp_by_name IsFound
search_narrows zero table func lo hi s n enough = absurd (omega (arith, n.ordered))
search_narrows (suc fuel) table func lo hi s n enough =
    let ih = search_narrows fuel table func in
    let mid = lo + (hi - lo) / 2 in
    let ordered = n.ordered in
    let top = n.top in
    elim (Bool-cases (ltb lo hi)) [
      | inr e ↦
          let same_end : lo ≡ hi = ground arith in
          rw e (
            none,
            refl,
            inl (
              refl,
              λ i b. elim (order_cases i lo) [
                | inl lower ↦ n.left_of i lower
                | inr (inl here) ↦ n.right_of i (omega arith) b
                | inr (inr higher) ↦ n.right_of i (omega arith) b
              ],
            ),
          )
      | inl e ↦
          let inside : lo < hi = ground arith in
          rw e elim (Sign-cases (strcmp func (name_of table mid))) [
            | inl down ↦ rw down (
                ih lo mid s
                  (record {
                    top = omega arith;
                    ordered = omega arith;
                    left_of = n.left_of;
                    right_of = λ i a b. not_behind table func mid i s down a b;
                  })
                  (omega arith))
            | inr (inl found) ↦ rw found (
              some (get_or table mid no_entry),
              refl,
              inr (mid, omega arith, sym (strcmp_eq func (name_of table mid) found), refl),
            )
            | inr (inr up) ↦ rw up (
                ih (mid + 1) hi s
                  (record {
                    top = n.top;
                    ordered = omega arith;
                    left_of = λ i a. not_before table func mid i s up a (omega arith);
                    right_of = n.right_of;
                  })
                  (omega arith))
          ]
    ]

-- On a table whose names ascend, with more fuel than it has entries, the search comes to its end,
-- and its answer is an entry of the table with the name, or nothing, if no entry has the name.
pub search_table_finds :
    (fuel : ℕ) (table : List ImportEntry) (func : List ℕ)
    → IsSorted table
    → length table < fuel
    → (r : Option ImportEntry) × (search_table fuel table func 0 (length table) ≡ some r)
      × IsFound table func r
search_table_finds fuel table func s enough =
    search_narrows fuel table func 0 (length table) s
      (record {
        top = omega arith;
        ordered = omega arith;
        left_of = λ i a. absurd (omega arith);
        right_of = λ i a b. absurd (omega arith);
      })
      (omega arith)
