-- ===== src/Classes/Laws.antt =====
-- Registering and finding window classes.
use my_wine.Prelude.{
  ℕ, zero, suc, ◌+◌, ◌*◌, ◌≡◌, ◌≤◌, ◌<◌, refl, ap, ◌∙◌, arith, inl, inr, Bool, true, false, List,
  [], ◌∷◌, ◌++◌, Option, none, some, length, get_elem?, leb, ltb, ◌==◌, Bool-cases, Option-cases,
  length-append, leb→le,
}
use my_wine.Classes.{
  WndClass, Classes, same_name, is_named, find_class_index, doubled, ensure_class_capacity,
  append_class, register_class, find_registered_class,
}

pub same_name_self : (name : List ℕ) → same_name name name ≡ true
unfolding same_name
same_name_self [] = refl
same_name_self (a ∷ as') = let e : (a == a) ≡ true = ground arith in rw (e, same_name_self as') refl

-- What is found stands in the table, at the index counted from `i`.
find_class_index_hit :
    (entries : List WndClass) (name : List ℕ) (i j : ℕ)
    → find_class_index entries name i ≡ some j
    → (i ≤ j) × (j < i + length entries)
unfolding find_class_index
find_class_index_hit [] name i j h = cc
find_class_index_hit (entry ∷ entries) name i j h = elim (Bool-cases (is_named name entry)) [
  | inl e ↦ let h' : some i ≡ some j = rw e at h in ground (arith, h')
  | inr e ↦
      let h' : find_class_index entries name (i + 1) ≡ some j = rw e at h in
      let (low, high) = find_class_index_hit entries name (i + 1) j h' in
      (omega (arith, low), omega (arith, high))
]

-- A name that stands in the first part is found there, whatever follows.
find_class_index-append_hit :
    (entries more : List WndClass) (name : List ℕ) (i j : ℕ)
    → find_class_index entries name i ≡ some j
    → find_class_index (entries ++ more) name i ≡ some j
unfolding find_class_index
find_class_index-append_hit [] more name i j h = cc
find_class_index-append_hit (entry ∷ entries) more name i j h =
    elim (Bool-cases (is_named name entry)) [
      | inl e ↦ rw e (rw e at h)
      | inr e ↦ rw e (find_class_index-append_hit entries more name (i + 1) j (rw e at h))
    ]

-- One that does not is looked for behind it.
find_class_index-append_miss :
    (entries more : List WndClass) (name : List ℕ) (i : ℕ)
    → find_class_index entries name i ≡ none
    → find_class_index (entries ++ more) name i ≡ find_class_index more name (i + length entries)
unfolding find_class_index
find_class_index-append_miss [] more name i h = ap (find_class_index more name) (omega arith)
find_class_index-append_miss (entry ∷ entries) more name i h =
    elim (Bool-cases (is_named name entry)) [
      | inl e ↦ let bad : some i ≡ none = rw e at h in cc
      | inr e ↦ rw e (
          find_class_index-append_miss entries more name (i + 1) (rw e at h)
          ∙ ap (find_class_index more name) (omega arith))
    ]

get_elem?-append_last :
    {A : Type 0} (xs : List A) (x : A) → get_elem? (xs ++ (x ∷ [])) (length xs) ≡ some x
get_elem?-append_last [] x = refl
get_elem?-append_last (y ∷ xs) x = get_elem?-append_last xs x

get_elem?-append_front :
    {A : Type 0} (xs ys : List A) (i : ℕ) → i < length xs → get_elem? (xs ++ ys) i ≡ get_elem? xs i
get_elem?-append_front [] ys i h = absurd (omega arith)
get_elem?-append_front (x ∷ xs) ys zero h = refl
get_elem?-append_front (x ∷ xs) ys (suc i) h = get_elem?-append_front xs ys i (omega arith)

one_doubling :
    (fuel : ℕ) (classes : Classes)
    → length classes.entries ≤ classes.capacity
    → (capacity : ℕ) × ((ensure_class_capacity
            (suc fuel)
            true
            classes.capacity
            (length classes.entries + 1)
          ≡ some (some capacity))
        × (length classes.entries + 1 ≤ capacity))
unfolding ensure_class_capacity doubled
one_doubling fuel classes fits =
    elim (Bool-cases (leb (length classes.entries + 1) classes.capacity)) [
      | inl e ↦
          rw e (classes.capacity, (refl, leb→le (length classes.entries + 1) classes.capacity e))
      | inr e ↦ rw e elim (Bool-cases (classes.capacity == 0)) [
        | inl f ↦
            let g : ltb 16 (length classes.entries + 1) ≡ false = ground arith in
            rw (f, g) (16, (refl, ground arith))
        | inr f ↦
            let g : ltb (classes.capacity * 2) (length classes.entries + 1) ≡ false =
              ground arith in
            rw (f, g) (classes.capacity * 2, (refl, ground arith))
      ]
    ]

found_last :
    (entries : List WndClass) (entry : WndClass) (name : List ℕ)
    → entry.class_name ≡ some name
    → find_class_index entries name 0 ≡ none
    → find_class_index (entries ++ (entry ∷ [])) name 0 ≡ some (length entries)
unfolding find_class_index is_named
found_last entries entry name named fresh =
    find_class_index-append_miss entries (entry ∷ []) name 0 fresh
    ∙ (rw (named, same_name_self name) (ap some (omega arith)))

-- Where the table fits its capacity, no class has the name and both allocations succeed, one round
-- of the doubling is enough: RegisterClassA returns the number of classes plus one, the table again
-- fits its capacity, and looking the name up gives the class with that atom.
pub register_class_finds :
    (fuel : ℕ) (classes : Classes) (wnd_class : WndClass) (name : List ℕ)
    → wnd_class.class_name ≡ some name
    → find_class_index classes.entries name 0 ≡ none
    → length classes.entries ≤ classes.capacity
    → (after : Classes) × ((register_class (suc fuel) true true classes wnd_class
          ≡ some (length classes.entries + 1, after))
        × ((length after.entries ≤ after.capacity)
            × (find_registered_class after name ≡ some (length classes.entries + 1, wnd_class))))
unfolding register_class append_class find_registered_class
register_class_finds fuel classes wnd_class name named fresh fits =
    let (capacity, (ok, room)) = one_doubling fuel classes fits in
    (
      record { entries = classes.entries ++ (wnd_class ∷ []); capacity = capacity },
      (
        simp (register_class, append_class, named, fresh, ok),
        (
          omega (arith, room, length-append classes.entries (wnd_class ∷ [])),
          rw
              (
                find_registered_class,
                found_last classes.entries wnd_class name named fresh,
                get_elem?-append_last classes.entries wnd_class,
              )
              refl,
        ),
      ),
    )

find-append :
    (classes : Classes) (more : List WndClass) (capacity : ℕ) (name : List ℕ) (found : ℕ × WndClass)
    → find_registered_class classes name ≡ some found
    → find_registered_class (record { entries = classes.entries ++ more; capacity = capacity }) name
      ≡ some found
unfolding find_registered_class
find-append classes more capacity name found h =
    elim (Option-cases (find_class_index classes.entries name 0)) [
      | inl e ↦ let bad : none ≡ some found = rw (find_registered_class, e) at h in cc
      | inr (j, e) ↦
          let (low, high) = find_class_index_hit classes.entries name 0 j e in
          rw
            (
              find_registered_class,
              find_class_index-append_hit classes.entries more name 0 j e,
              get_elem?-append_front classes.entries more j (omega (arith, high)),
            )
            (rw (find_registered_class, e) at h)
    ]

same_after :
    {classes after : Classes} {atom atom' : ℕ}
    → ◌≡◌ {A = Option (ℕ × Classes)} (some (atom, classes)) (some (atom', after))
    → after ≡ classes
same_after h = cc

find_capacity :
    (classes : Classes) (capacity : ℕ) (name : List ℕ)
    → find_registered_class (record { entries = classes.entries; capacity = capacity }) name
      ≡ find_registered_class classes name
unfolding find_registered_class
find_capacity classes capacity name = refl

appended :
    (copied : Bool) (classes after : Classes) (wnd_class : WndClass) (capacity : Option ℕ)
    (atom : ℕ) (name : List ℕ) (found : ℕ × WndClass)
    → ◌≡◌ {A = Option (ℕ × Classes)}
        (some (append_class copied classes wnd_class capacity))
        (some (atom, after))
    → find_registered_class classes name ≡ some found
    → find_registered_class after name ≡ some found
unfolding append_class
appended copied classes after wnd_class none atom name found h had = rw (same_after h) had
appended true classes after wnd_class (some capacity) atom name found h had =
    rw (same_after h) (find-append classes (wnd_class ∷ []) capacity name found had)
appended false classes after wnd_class (some capacity) atom name found h had =
    rw (same_after h) (find_capacity classes capacity name ∙ had)

-- Whatever its allocations and the class, RegisterClassA changes nothing of what looking up a name
-- gives that was registered before.
pub register_class_keeps :
    (fuel : ℕ) (memory copied : Bool) (classes after : Classes) (wnd_class : WndClass) (atom : ℕ)
    (name : List ℕ) (found : ℕ × WndClass)
    → register_class fuel memory copied classes wnd_class ≡ some (atom, after)
    → find_registered_class classes name ≡ some found
    → find_registered_class after name ≡ some found
unfolding register_class append_class
register_class_keeps fuel memory copied classes after wnd_class atom name found h had =
    elim (Option-cases wnd_class.class_name) [
      | inl e ↦ rw (same_after (rw (register_class, e) at h)) had
      | inr (own, e) ↦ elim (Option-cases (find_class_index classes.entries own 0)) [
        | inr (idx, f) ↦ rw (same_after (rw (register_class, e, f) at h)) had
        | inl f ↦
            elim (Option-cases
              (ensure_class_capacity fuel memory classes.capacity (length classes.entries + 1))) [
                | inl g ↦
                    let bad : ◌≡◌ {A = Option (ℕ × Classes)} none (some (atom, after)) =
                      rw (register_class, e, f, g) at h in
                    cc
                | inr (capacity, g) ↦
                    appended copied classes after wnd_class capacity atom name found
                      (rw (register_class, e, f, g) at h) had
              ]
      ]
    ]
