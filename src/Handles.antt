-- ===== src/Handles.antt =====
-- The handle table of src/msvcrt/handle_manager.c and handle_manager_runtime.c: 512 reference
-- counted slots behind one spinlock. A call holds the lock from its first read to its last write,
-- so each operation is one step on the table. Pointers are numbers, and 0 is NULL.
pub mod Invariant
pub mod Laws
pub mod Scan
use my_wine.Prelude.{
  ℕ, zero, suc, ◌+◌, ◌-◌, ◌≡◌, Bool, true, false, List, [], ◌∷◌, ◌++◌, get_or, set, replicate, ltb,
  leb, ◌==◌, if◌then◌else◌,
}

-- `wine_handle_t`.
pub record Slot : Type 0 where
  pub id : ℕ
  pub type : ℕ
  pub ref_count : ℕ
  pub object : ℕ

abbrev pub Table : Type 0
Table = List Slot

abbrev pub handle_table_size : ℕ
handle_table_size = 512

-- The type tags that this development names.
abbrev pub type_file : ℕ
type_file = 0x01

abbrev pub type_event : ℕ
type_event = 0x02

abbrev pub type_mutex : ℕ
type_mutex = 0x03

abbrev pub type_semaphore : ℕ
type_semaphore = 0x05

abbrev pub type_section : ℕ
type_section = 0x06

abbrev pub type_hwin : ℕ
type_hwin = 0x60

abbrev pub type_hkey : ℕ
type_hkey = 0x80

abbrev pub empty_slot : Slot
empty_slot = record { id = 0; type = 0; ref_count = 0; object = 0 }

-- `&state->table[handle]`, read; `wine_handle_slot` has refused a handle past the end.
abbrev pub slot_at : Table → ℕ → Slot
slot_at t i = get_or t i empty_slot

-- The descriptor `fd` behind the handle of the same number.
abbrev pub standard_slot : ℕ → Slot
standard_slot fd = record { id = fd; type = type_file; ref_count = 1; object = fd }

-- wine_handle_manager_runtime_init: the three standard streams, then zeros.
unfoldable pub init : Table
init = standard_slot 0 ∷ standard_slot 1 ∷ standard_slot 2 ∷ replicate 509 empty_slot

-- The loop of wine_handle_alloc over the next `rounds` slots; 0 when none of them is free.
unfoldable pub find_free : ℕ → ℕ → Table → ℕ
find_free zero i t = 0
find_free (suc rounds) i t =
    let rest = find_free rounds (i + 1) t in if (slot_at t i).ref_count == 0 then i else rest

-- What the loop stores in the slot that it takes.
store : ℕ → ℕ → Table → ℕ → ℕ × Table
store type object t i =
    if i == 0
    then (0, t)
    else (i, set t i (record { id = i; type = type; ref_count = 1; object = object }))

-- wine_handle_alloc: the first free slot from 3 on, or 0.
unfoldable pub alloc : ℕ → ℕ → Table → ℕ × Table
unfolding store
alloc type object t = store type object t (find_free 509 3 t)

-- wine_handle_get
unfoldable pub get : Table → ℕ → ℕ
get t handle =
    if leb handle_table_size handle
    then 0
    else if (slot_at t handle).ref_count == 0
    then 0
    else (slot_at t handle).object

-- wine_handle_get_type
unfoldable pub get_type : Table → ℕ → ℕ
get_type t handle =
    if leb handle_table_size handle
    then 0
    else if (slot_at t handle).ref_count == 0
    then 0
    else (slot_at t handle).type

-- The body of wine_handle_add_ref on its slot.
retain : Slot → Slot
retain s =
    if s.ref_count == 0
    then s
    else if ltb s.ref_count 255
    then record s { ref_count = s.ref_count + 1 }
    else s

-- wine_handle_add_ref
unfoldable pub add_ref : Table → ℕ → Table
unfolding retain
add_ref t handle =
    if leb handle_table_size handle then t else set t handle (retain (slot_at t handle))

-- The body of wine_handle_free on its slot.
release : Slot → Slot
release s =
    if s.ref_count == 0
    then s
    else if s.ref_count == 1
    then empty_slot
    else record s { ref_count = s.ref_count - 1 }

-- wine_handle_free: the standard streams are never freed.
unfoldable pub free : Table → ℕ → Table
unfolding release
free t handle =
    if leb handle 2
    then t
    else if leb handle_table_size handle
    then t
    else set t handle (release (slot_at t handle))
