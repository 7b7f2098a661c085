-- ===== src/Classes.antt =====
-- src/msvcrt/user32_class_registry.c: the table of registered window classes, with the comparison
-- of src/msvcrt/user32_priv.h and `WNDCLASSA` of include/user32_types.h. Pointers and handles are
-- numbers, a name is its bytes. Whether an allocation succeeds is an argument.
pub mod Laws
use my_wine.Prelude.{
  ℕ, zero, suc, ◌+◌, ◌*◌, ◌≡◌, Bool, true, false, ◌&&◌, List, [], ◌∷◌, ◌++◌, Option, none, some,
  length, get_elem?, leb, ltb, ◌==◌, if◌then◌else◌,
}

-- `WNDCLASSA`
pub record WndClass : Type 0 where
  pub style : ℕ
  pub wnd_proc : ℕ
  pub cls_extra : ℕ
  pub wnd_extra : ℕ
  pub instance_handle : ℕ
  pub icon : ℕ
  pub cursor : ℕ
  pub background : ℕ
  pub menu_name : ℕ
  pub class_name : Option (List ℕ)

-- `g_class_registry` up to `g_class_count`, and `g_class_capacity`.
pub record Classes : Type 0 where
  pub entries : List WndClass
  pub capacity : ℕ

abbrev pub no_classes : Classes
no_classes = record { entries = []; capacity = 0 }

-- user32_strcmp, as to whether it returns 0
unfoldable pub same_name : List ℕ → List ℕ → Bool
same_name [] [] = true
same_name [] (b ∷ bs) = false
same_name (a ∷ as') [] = false
same_name (a ∷ as') (b ∷ bs) = let rest = same_name as' bs in if a == b then rest else false

-- The test of find_class_index on one entry.
unfoldable pub is_named : List ℕ → WndClass → Bool
is_named name entry = elim entry.class_name [
  | none ↦ false
  | some class_name ↦ same_name class_name name
]

-- find_class_index over the entries from `i` on; none is -1.
unfoldable pub find_class_index : List WndClass → List ℕ → ℕ → Option ℕ
find_class_index [] name i = none
find_class_index (entry ∷ entries) name i =
    let rest = find_class_index entries name (i + 1) in if is_named name entry then some i else rest

-- The loop of ensure_class_capacity that doubles; none is fuel that ran out.
unfoldable pub doubled : ℕ → ℕ → ℕ → Option ℕ
doubled zero needed_count new_capacity = none
doubled (suc fuel) needed_count new_capacity =
    let rest = doubled fuel needed_count (new_capacity * 2) in
    if ltb new_capacity needed_count then rest else some new_capacity

-- ensure_class_capacity: the new capacity, none where it returns FALSE. `memory` says whether the
-- allocation succeeds; the outer none is fuel that ran out.
unfoldable pub ensure_class_capacity : ℕ → Bool → ℕ → ℕ → Option (Option ℕ)
ensure_class_capacity fuel memory capacity needed_count =
    if leb needed_count capacity
    then some (some capacity)
    else elim (doubled fuel needed_count (if capacity == 0 then 16 else capacity * 2)) [
      | none ↦ none
      | some new_capacity ↦ some (if memory then some new_capacity else none)
    ]

-- RegisterClassA once the name is known to be free: the atom and the table.
unfoldable pub append_class : Bool → Classes → WndClass → Option ℕ → ℕ × Classes
append_class copied classes wnd_class none = (0, classes)
append_class copied classes wnd_class (some capacity) =
    if copied
    then (
      length classes.entries + 1,
      record { entries = classes.entries ++ (wnd_class ∷ []); capacity = capacity },
    )
    else (0, record { entries = classes.entries; capacity = capacity })

-- RegisterClassA with a class; `memory` and `copied` say whether its two allocations succeed.
unfoldable pub register_class : ℕ → Bool → Bool → Classes → WndClass → Option (ℕ × Classes)
unfolding append_class
register_class fuel memory copied classes wnd_class = elim wnd_class.class_name [
  | none ↦ some (0, classes)
  | some name ↦ elim (find_class_index classes.entries name 0) [
    | some idx ↦ some (idx + 1, classes)
    | none ↦
        elim (ensure_class_capacity fuel memory classes.capacity (length classes.entries + 1)) [
          | none ↦ none
          | some capacity ↦ some (append_class copied classes wnd_class capacity)
        ]
  ]
]

-- user32_find_registered_class: the class and its atom.
unfoldable pub find_registered_class : Classes → List ℕ → Option (ℕ × WndClass)
find_registered_class classes name = elim (find_class_index classes.entries name 0) [
  | none ↦ none
  | some idx ↦ elim (get_elem? classes.entries idx) [
    | none ↦ none
    | some entry ↦ some (idx + 1, entry)
  ]
]
