-- ===== src/Tests/ProgramTests.antt =====
-- Paths, window classes and registry values on short strings.
use my_wine.Prelude.{
  ℕ, ◌%◌, ◌^◌, ◌≤◌, ◌<◌, ◌≡◌, refl, arith, true, List, [], ◌∷◌, some, length, replicate,
  if◌then◌else◌, ◌==◌,
}
use my_wine.Handles.{alloc, type_hkey, init, find_free, get}
use my_wine.Path.{ends_in_slash, copy_cwd, has_drive, is_absolute, wine_resolve_path}
use my_wine.Path.Resolve.{resolve_in_bounds, resolve_overruns}
use my_wine.Classes.{
  WndClass, Classes, same_name, is_named, find_class_index, register_class, find_registered_class,
}
use my_wine.Classes.Laws.{register_class_finds}
use my_wine.Registry.{State, no_values, is_value, reg_find_value, find_unused, reg_ensure_value}
use my_wine.Registry.Calls.{set_value, query_value}
use my_wine.Registry.Frame.{query_value-set_value_other}
use my_wine.Registry.Values.{query_value-set_value}

-- "/ab" and "c\\d"
abbrev cwd : List ℕ
cwd = 47 ∷ 97 ∷ 98 ∷ []

abbrev relative : List ℕ
relative = 99 ∷ 92 ∷ 92 ∷ 100 ∷ []

resolve_in_bounds_example :
    (out : List ℕ) × ((wine_resolve_path 16 cwd relative ≡ some out) × (length out < 16))
resolve_in_bounds_example = resolve_in_bounds 16 cwd relative (omega arith)

-- Four bytes hold "/ab" and its NUL, but not the separator behind it.
resolve_overruns_example :
    (out : List ℕ) × ((wine_resolve_path 4 cwd relative ≡ some out) × (length out ≡ 4))
resolve_overruns_example =
    resolve_overruns 4 cwd relative (omega arith) (omega arith)
      (unfold copy_cwd ends_in_slash in refl) (unfold has_drive in refl)
      (unfold is_absolute in refl)

abbrev wnd_class : ℕ → List ℕ → WndClass
wnd_class wnd_proc name = record {
  style = 0;
  wnd_proc = wnd_proc;
  cls_extra = 0;
  wnd_extra = 0;
  instance_handle = 0;
  icon = 0;
  cursor = 0;
  background = 0;
  menu_name = 0;
  class_name = some name;
}

abbrev one_class : Classes
one_class = record { entries = wnd_class 4096 cwd ∷ []; capacity = 16 }

register_class_finds_example :
    (after : Classes) × ((register_class 1 true true one_class (wnd_class 8192 relative)
        ≡ some (2, after))
      × ((length after.entries ≤ after.capacity)
          × (find_registered_class after relative ≡ some (2, wnd_class 8192 relative))))
register_class_finds_example =
    register_class_finds 0 one_class (wnd_class 8192 relative) relative refl
      (unfold find_class_index is_named same_name in refl) (omega arith)

abbrev two_classes : Classes
two_classes = record { entries = wnd_class 4096 cwd ∷ wnd_class 8192 relative ∷ []; capacity = 16 }

-- One key, "HKCU\\ab" at address 4096, of handle 3.
abbrev registry : State
registry = record {
  handles = (alloc type_hkey 4096 init).1;
  keys = λ p. 72 ∷ 75 ∷ 67 ∷ 85 ∷ 92 ∷ 97 ∷ 98 ∷ [];
  values = no_values;
}

abbrev three_bytes : List ℕ
three_bytes = 1 ∷ 2 ∷ 3 ∷ []

query_value-set_value_example :
    query_value (set_value registry 3 relative 4 three_bytes).1 3 relative true (some 8) ≡ record {
      code = 0;
      type = some (if 4 == 0 then 1 else 4);
      bytes = some three_bytes;
      size = some (length three_bytes);
    }
query_value-set_value_example =
    query_value-set_value registry 3 relative three_bytes 4 8 (omega arith) (omega arith)
      (omega arith) (omega arith) (omega arith) stored
  where
    stored : (set_value registry 3 relative 4 three_bytes).0 ≡ 0
    stored =
        unfold set_value reg_ensure_value reg_find_value find_unused is_value get alloc find_free
          init in
        refl

abbrev long_name : List ℕ
long_name = replicate 128 97

key_object : get registry.handles (3 % 2 ^ 32) ≡ 4096
unfolding get alloc find_free init
key_object = refl

query_value-set_value_other_example :
    query_value (set_value registry 3 relative 4 three_bytes).1 3 cwd true (some 8)
    ≡ query_value registry 3 cwd true (some 8)
query_value-set_value_other_example =
    query_value-set_value_other registry 3 3 relative cwd three_bytes 4 true (some 8) (omega arith)
      (omega arith) (unfold same_name in refl)
