-- ===== src/Loader/Modules.antt =====
-- src/loader/module_list.c: the registry of loaded images, with `loaded_module_t` and
-- `wine_loader_state_t` of module_list.h and loader_state.h. A pointer to a module is its index, and
-- none is NULL; the links of a module's PEB entry are not modelled.
pub mod Find
pub mod Gap
use my_wine.Prelude.{
  ℕ, zero, suc, ◌+◌, ◌-◌, ◌*◌, ◌%◌, ◌^◌, ◌≡◌, Bool, true, false, not, ◌&&◌, ◌||◌, List, [], ◌∷◌,
  Option, none, some, length, get_or, set, replicate, map, take, leb, ltb, ◌==◌, if◌then◌else◌,
}
use mathlib.Core.Option
use my_wine.Strings.{ascii_lower, same_nocase, copy_str}
use my_wine.Pe.{NtHeaders, entry_rva, size_of_image, time_date_stamp}
use my_wine.Pe.Exports.{Cache, empty_cache}

-- `LDR_UNICODE_STRING`, its buffer up to the zeros.
pub record UnicodeString : Type 0 where
  pub length_bytes : ℕ
  pub maximum_length : ℕ
  pub buffer : List ℕ

abbrev pub no_string : UnicodeString
no_string = record { length_bytes = 0; maximum_length = 0; buffer = [] }

-- `LDR_DATA_TABLE_ENTRY`, as far as it is filled here.
pub record LdrEntry : Type 0 where
  pub dll_base : ℕ
  pub entry_point : ℕ
  pub size : ℕ
  pub stamp : ℕ
  pub ldr_load_count : ℕ
  pub full_dll_name : UnicodeString
  pub base_dll_name : UnicodeString

abbrev pub no_ldr : LdrEntry
no_ldr = record {
  dll_base = 0;
  entry_point = 0;
  size = 0;
  stamp = 0;
  ldr_load_count = 0;
  full_dll_name = no_string;
  base_dll_name = no_string;
}

-- `loaded_module_t`; a base of 0 is a free slot, and no headers are NULL.
pub record Loaded : Type 0 where
  pub base : ℕ
  pub name : List ℕ
  pub nt : Option NtHeaders
  pub export_cache : Cache
  pub ldr_entry : LdrEntry
  pub load_count : ℕ
  pub ldr_linked : Bool
  pub dllmain_called : Bool

abbrev pub free_slot : Loaded
free_slot = record {
  base = 0;
  name = [];
  nt = none;
  export_cache = empty_cache;
  ldr_entry = no_ldr;
  load_count = 0;
  ldr_linked = false;
  dllmain_called = false;
}

abbrev pub max_modules : ℕ
max_modules = 16

-- `g_loader.modules` and `g_loader.module_count`.
pub record ModuleList : Type 0 where
  pub modules : List Loaded
  pub module_count : ℕ

abbrev pub module_at : ModuleList → ℕ → Loaded
module_at l i = get_or l.modules i free_slot

-- module_make_unicode_string
unfoldable pub make_unicode_string : List ℕ → UnicodeString
make_unicode_string src = record {
  length_bytes = length src * 2 % 2 ^ 16;
  maximum_length = (length src + 1) * 2 % 2 ^ 16;
  buffer = map (λ c. c % 2 ^ 8) (take 260 src);
}

-- module_init_ldr_entry
unfoldable pub init_ldr_entry : Loaded → NtHeaders → Loaded
init_ldr_entry m nt = record m {
  ldr_entry = record {
    dll_base = m.base;
    entry_point = m.base + entry_rva nt;
    size = size_of_image nt;
    stamp = time_date_stamp nt;
    ldr_load_count = 1;
    full_dll_name = make_unicode_string m.name;
    base_dll_name = make_unicode_string m.name;
  };
}

-- init_module_list
unfoldable pub init_module_list : ModuleList
init_module_list = record { modules = replicate 16 free_slot; module_count = 0 }

-- The loop of add_module for a free slot, from slot `i` on.
unfoldable pub find_free_module : List Loaded → Option ℕ
find_free_module [] = none
find_free_module (m ∷ ms) =
    let rest = Option.map suc (find_free_module ms) in if m.base == 0 then some 0 else rest

-- What add_module stores in its slot.
unfoldable pub new_module : ℕ → List ℕ → NtHeaders → Loaded
new_module base name nt =
    init_ldr_entry
      (record free_slot { base = base; name = copy_str 259 name; nt = some nt; load_count = 1 }) nt

-- add_module: the module, and the list.
unfoldable pub add_module : ℕ → List ℕ → NtHeaders → ModuleList → Option ℕ × ModuleList
add_module base name nt l = elim (find_free_module l.modules) [
  | none ↦ (none, l)
  | some i ↦ (
    some i,
    record {
      modules = set l.modules i (new_module base name nt);
      module_count = l.module_count + 1;
    },
  )
]

-- The loops of the three searches over the next `rounds` slots from `i` on.
unfoldable pub find_from : (Loaded → Bool) → ModuleList → ℕ → ℕ → Option ℕ
find_from p l zero i = none
find_from p l (suc rounds) i =
    let rest = find_from p l rounds (i + 1) in if p (module_at l i) then some i else rest

-- The test of find_module_by_name
unfoldable pub is_named_module : List ℕ → Loaded → Bool
is_named_module name m = not (m.base == 0) && same_nocase m.name name

unfoldable pub find_module_by_name : List ℕ → ModuleList → Option ℕ
find_module_by_name name l = find_from (is_named_module name) l l.module_count 0

-- The comparison that find_module_by_name_safe writes out: its loop, and the test behind it.
unfoldable pub both_end : List ℕ → List ℕ → Bool
both_end [] [] = true
both_end [] (b ∷ bs) = false
both_end (a ∷ as') [] = false
both_end (a ∷ as') (b ∷ bs) =
    let ca = if leb 65 a && leb a 90 then a + 32 else a in
    let cb = if leb 65 b && leb b 90 then b + 32 else b in
    let rest = both_end as' bs in if not (ca == cb) then false else rest

unfoldable pub find_module_by_name_safe : List ℕ → ModuleList → Option ℕ
find_module_by_name_safe name l = find_from (λ m. both_end m.name name) l l.module_count 0

-- The test of find_module_by_addr
unfoldable pub holds_addr : ℕ → Loaded → Bool
holds_addr addr m = elim m.nt [
  | none ↦ false
  | some nt ↦ not (m.base == 0) && (leb m.base addr && ltb addr (m.base + size_of_image nt))
]

unfoldable pub find_module_by_addr : ℕ → ModuleList → Option ℕ
find_module_by_addr addr l = find_from (holds_addr addr) l l.module_count 0

-- remove_module: the loop looks for the module below the count only.
unfoldable pub remove_module : ℕ → ModuleList → ModuleList
remove_module i l =
    if ltb i l.module_count
    then record { modules = set l.modules i free_slot; module_count = l.module_count - 1 }
    else l
