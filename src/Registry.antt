-- ===== src/Registry.antt =====
-- src/msvcrt/advapi32_registry.c: 64 values, each under the path of a key and a name. A string is
-- the bytes in front of its NUL. A key is memory at the address that its handle answers with.
pub mod Calls
pub mod Values
pub mod Frame
pub mod Find
use my_wine.Prelude.{
  ℕ, zero, suc, ◌+◌, ◌-◌, ◌%◌, ◌^◌, ◌≡◌, Bool, true, false, ◌&&◌, ◌||◌, not, List, [], ◌∷◌, ◌++◌,
  Option, none, some, length, get_or, set, take, drop, replicate, leb, ltb, ◌==◌, if◌then◌else◌,
}
use mathlib.Core.Option
use my_wine.Handles
use my_wine.Classes.{same_name}

-- `wine_reg_value`
pub record Value : Type 0 where
  pub path : List ℕ
  pub name : List ℕ
  pub type : ℕ
  pub bytes : List ℕ
  pub size : ℕ
  pub used : Bool

abbrev pub data_size : ℕ
data_size = 512

abbrev pub unused : Value
unused = record { path = []; name = []; type = 0; bytes = replicate 512 0; size = 0; used = false }

-- `g_reg_values` before the first call
abbrev pub no_values : List Value
no_values = replicate 64 unused

abbrev pub hkey_current_user : ℕ
hkey_current_user = 0x80000001

abbrev pub hkcu : List ℕ
hkcu = 72 ∷ 75 ∷ 67 ∷ 85 ∷ []

-- The handle table, the path of the `wine_hkey` at each address, and the values.
pub record State : Type 0 where
  pub handles : Handles.Table
  pub keys : ℕ → List ℕ
  pub values : List Value

-- reg_copy_cstr: what the buffer of `dst_size` bytes, not 0, holds afterwards.
unfoldable pub reg_copy_cstr : ℕ → List ℕ → List ℕ
reg_copy_cstr dst_size src = if leb dst_size (length src) then take (dst_size - 1) src else src

-- The path of the key that `root` names, or HKCU.
key_prefix : State → ℕ → List ℕ
key_prefix s root =
    let handle = root % 2 ^ 32 in
    if not (root == hkey_current_user) && (Handles.get_type s.handles handle == Handles.type_hkey)
    then (if Handles.get s.handles handle == 0 then hkcu else s.keys (Handles.get s.handles handle))
    else hkcu

-- A loop of reg_join_path: bytes are copied while `i + 1 < out_size`.
unfoldable pub append_bounded : ℕ → List ℕ → List ℕ → List ℕ
append_bounded out_size out [] = out
append_bounded out_size out (ch ∷ src) =
    let rest = append_bounded out_size (out ++ (ch ∷ [])) src in
    if ltb (length out + 1) out_size then rest else out

-- reg_join_path into the 256 bytes that its callers have.
unfoldable pub reg_join_path : State → ℕ → Option (List ℕ) → List ℕ
unfolding key_prefix
reg_join_path s root none = append_bounded 256 [] (key_prefix s root)
reg_join_path s root (some []) = append_bounded 256 [] (key_prefix s root)
reg_join_path s root (some (ch ∷ subkey)) =
    append_bounded 256 (append_bounded 256 [] (key_prefix s root)) (92 ∷ ch ∷ subkey)

-- The test of reg_find_value on one value.
unfoldable pub is_value : List ℕ → List ℕ → Value → Bool
is_value path name v = v.used && (same_name v.path path && same_name v.name name)

unfoldable pub reg_find_value : List Value → List ℕ → List ℕ → Option ℕ
reg_find_value [] path name = none
reg_find_value (v ∷ vs) path name =
    let rest = Option.map suc (reg_find_value vs path name) in
    if is_value path name v then some 0 else rest

-- The loop of reg_ensure_value for a value that is not used.
unfoldable pub find_unused : List Value → Option ℕ
find_unused [] = none
find_unused (v ∷ vs) = let rest = Option.map suc (find_unused vs) in if v.used then rest else some 0

-- What reg_ensure_value stores in it.
abbrev pub new_value : List ℕ → List ℕ → Value
new_value path name = record unused {
  used = true;
  path = reg_copy_cstr 256 path;
  name = reg_copy_cstr 128 name;
}

unfoldable pub reg_ensure_value : List Value → List ℕ → List ℕ → Option (ℕ × List Value)
reg_ensure_value vs path name = elim (reg_find_value vs path name) [
  | some idx ↦ some (idx, vs)
  | none ↦ elim (find_unused vs) [ none ↦ none | some i ↦ some (i, set vs i (new_value path name)) ]
]
