-- ===== src/Registry/Calls.antt =====
-- The calls of src/msvcrt/advapi32_registry.c on keys and values.
use my_wine.Prelude.{
  ℕ, ◌%◌, ◌^◌, Bool, ◌&&◌, ◌||◌, not, List, [], ◌∷◌, ◌++◌, Option, none, some, length, get_or, set,
  take, drop, ltb, ◌==◌, if◌then◌else◌,
}
use my_wine.Handles
use my_wine.Classes.{same_name}
use my_wine.Registry.{
  Value, data_size, unused, hkey_current_user, State, reg_copy_cstr, reg_join_path, reg_find_value,
  reg_ensure_value,
}

-- RegCreateKeyA and RegOpenKeyA, where `phkResult` is not NULL: the result and the handle.
-- `address` is what malloc returns.
unfoldable pub create_key : ℕ → State → ℕ → Option (List ℕ) → (ℕ × ℕ) × State
create_key address s root subkey =
    let path = reg_join_path s root subkey in
    let (handle, table) = Handles.alloc Handles.type_hkey address s.handles in
    if address == 0 then ((8, 0), s) else (
      (0, handle),
      record s {
        handles = table;
        keys = λ p. if p == address then reg_copy_cstr 256 path else s.keys p;
      },
    )

-- RegCloseKey; what it frees of the key's memory is not modelled.
unfoldable pub close_key : State → ℕ → State
close_key s root =
    let handle = root % 2 ^ 32 in
    if not (handle == 0)
      && (not (root == hkey_current_user)
          && (Handles.get_type s.handles handle == Handles.type_hkey))
    then record s { handles = Handles.free s.handles handle }
    else s

-- What RegQueryValueExA returns and stores through its three pointers.
pub record Answer : Type 0 where
  pub code : ℕ
  pub type : Option ℕ
  pub bytes : Option (List ℕ)
  pub size : Option ℕ

abbrev pub failed : ℕ → Answer
failed code = record { code = code; type = none; bytes = none; size = none }

-- RegQueryValueExA at a value: `has_data` says whether lpData is not NULL, `room` is `*lpcbData`.
unfoldable pub answer : Value → Bool → Option ℕ → Answer
answer v has_data none = record { code = 0; type = some v.type; bytes = none; size = none }
answer v has_data (some room) =
    if not has_data || ltb room v.size
    then record { code = 234; type = some v.type; bytes = none; size = some v.size }
    else record {
      code = 0;
      type = some v.type;
      bytes = some (take v.size v.bytes);
      size = some v.size;
    }

unfoldable pub query_value : State → ℕ → List ℕ → Bool → Option ℕ → Answer
unfolding answer
query_value s root name has_data room =
    let object = Handles.get s.handles (root % 2 ^ 32) in
    if root == hkey_current_user
    then failed 2
    else if object == 0
    then failed 2
    else elim (reg_find_value s.values (s.keys object) name) [
      | none ↦ failed 2
      | some idx ↦ answer (get_or s.values idx unused) has_data room
    ]

-- RegSetValueExA on the value: `given` are the `cbData` bytes at lpData, which is not NULL.
unfoldable pub write_value : ℕ → List ℕ → Value → Value
write_value type given v =
    let n = if ltb data_size (length given) then data_size else length given in
    record v {
      type = if type == 0 then 1 else type;
      bytes = take n given ++ drop n v.bytes;
      size = n;
    }

unfoldable pub set_value : State → ℕ → List ℕ → ℕ → List ℕ → ℕ × State
unfolding write_value
set_value s root name type given =
    let object = Handles.get s.handles (root % 2 ^ 32) in
    if object == 0 then (2, s) else elim (reg_ensure_value s.values (s.keys object) name) [
      | none ↦ (8, s)
      | some (idx, vs) ↦
          (0, record s { values = set vs idx (write_value type given (get_or vs idx unused)) })
    ]

-- RegDeleteKeyA
unfoldable pub delete_values : List Value → List ℕ → List Value
delete_values [] path = []
delete_values (v ∷ vs) path =
    (if v.used && same_name v.path path then unused else v) ∷ delete_values vs path

unfoldable pub delete_key : State → ℕ → Option (List ℕ) → State
delete_key s root subkey = record s {
  values = delete_values s.values (reg_join_path s root subkey);
}
