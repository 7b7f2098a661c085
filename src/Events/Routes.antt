-- ===== src/Events/Routes.antt =====
-- src/backend/sdl2/rb_event_state.c: the active window, and the table of routes between the windows of
-- the guest and those of the backend. The table's capacity is its length; -1 for an index is none.
-- Whether an allocation succeeds is an argument, and so are the windows behind the pointers.
pub mod Bind
use my_wine.Prelude.{
  ℕ, zero, suc, ◌+◌, ◌-◌, ◌*◌, Bool, true, false, not, ◌&&◌, ◌||◌, List, [], ◌∷◌, ◌++◌, Option,
  none, some, length, get_or, set, replicate, leb, ◌==◌, if◌then◌else◌,
}
use my_wine.Prelude.Search.{find_index}
use my_wine.Handles.{Table, get, get_type}
use my_wine.Classes.{doubled}

-- `rb_window_route`
pub record Route : Type 0 where
  pub hwnd : ℕ
  pub backend_win : ℕ
  pub sdl_window_id : ℕ
  pub native_window_id : ℕ

abbrev pub no_route : Route
no_route = record { hwnd = 0; backend_win = 0; sdl_window_id = 0; native_window_id = 0 }

-- What is used of `rb_window`.
pub record RbWindow : Type 0 where
  pub own_sdl_id : ℕ
  pub own_native_id : ℕ

-- `g_active_window` and `g_window_routes`
pub record Routes : Type 0 where
  pub active : ℕ
  pub table : List Route

abbrev pub type_rb_window : ℕ
type_rb_window = 0x63

-- rb_event_get_backend_window
unfoldable pub get_backend_window : Table → ℕ → ℕ
get_backend_window t win = if not (get_type t win == type_rb_window) then 0 else get t win

-- rb_event_ensure_route_capacity: none where it fails, and the outer none is fuel that ran out.
unfoldable pub ensure_route_capacity : ℕ → Bool → ℕ → List Route → Option (Option (List Route))
ensure_route_capacity fuel memory needed table =
    if leb needed (length table)
    then some (some table)
    else elim (doubled fuel needed (if length table == 0 then 16 else length table * 2)) [
      | none ↦ none
      | some new_capacity ↦ some (
          if memory then some (table ++ replicate (new_capacity - length table) no_route) else none)
    ]

-- The loops over the table.
unfoldable pub find_route_by_hwnd : ℕ → List Route → Option ℕ
find_route_by_hwnd hwnd table = find_index (λ r. r.hwnd == hwnd) table

unfoldable pub find_route_by_sdl_window : ℕ → List Route → Option ℕ
find_route_by_sdl_window window_id table =
    if window_id == 0
    then none
    else find_index (λ r. not (r.hwnd == 0) && (r.sdl_window_id == window_id)) table

unfoldable pub find_route_by_native_window : ℕ → List Route → Option ℕ
find_route_by_native_window native_id table =
    if native_id == 0
    then none
    else find_index (λ r. not (r.hwnd == 0) && (r.native_window_id == native_id)) table

-- rb_event_alloc_route_slot: the slot, and the table.
unfoldable pub alloc_route_slot : ℕ → Bool → List Route → Option (Option ℕ × List Route)
alloc_route_slot fuel memory table =
    elim (ensure_route_capacity fuel memory (length table + 1) table) [
      | none ↦ none
      | some none ↦ some (none, table)
      | some (some table') ↦ some (find_index (λ r. r.hwnd == 0) table', table')
    ]

-- rb_event_set_active_window
unfoldable pub set_active_window : ℕ → Routes → Routes
set_active_window hwnd r = record r { active = hwnd }

-- The route that a bind stores.
abbrev pub route_to : (ℕ → RbWindow) → ℕ → ℕ → ℕ → Route
route_to windows hwnd win wnd = record {
  hwnd = hwnd;
  backend_win = win;
  sdl_window_id = (windows wnd).own_sdl_id;
  native_window_id = (windows wnd).own_native_id;
}

-- rb_event_bind_window: whether it returned RB_OK, and the state.
unfoldable pub bind_window :
    ℕ → Bool → Table → (ℕ → RbWindow) → ℕ → ℕ → Routes → Option (Bool × Routes)
bind_window fuel memory t windows hwnd win r =
    let wnd = get_backend_window t win in
    let route = route_to windows hwnd win wnd in
    if (hwnd == 0) || (wnd == 0) || ((windows wnd).own_sdl_id == 0)
    then some (false, r)
    else elim (find_route_by_hwnd hwnd r.table) [
      | some idx ↦ some (true, record r { table = set r.table idx route })
      | none ↦ elim (alloc_route_slot fuel memory r.table) [
        | none ↦ none
        | some slot ↦ elim slot.0 [
          | none ↦ some (false, record r { table = slot.1 })
          | some idx ↦ some (true, record r { table = set slot.1 idx route })
        ]
      ]
    ]

-- rb_event_unbind_window
unfoldable pub unbind_window : ℕ → Routes → Routes
unbind_window hwnd r = elim (find_route_by_hwnd hwnd r.table) [
  | none ↦ r
  | some idx ↦ record {
    active = if r.active == hwnd then 0 else r.active;
    table = set r.table idx no_route;
  }
]

abbrev pub route_at : Routes → ℕ → Route
route_at r i = get_or r.table i no_route

-- rb_event_get_sdl_window_id
unfoldable pub get_sdl_window_id : ℕ → Routes → ℕ
get_sdl_window_id hwnd r = elim (find_route_by_hwnd hwnd r.table) [
  | none ↦ 0
  | some idx ↦ (route_at r idx).sdl_window_id
]

-- rb_event_resolve_hwnd_from_sdl_window
unfoldable pub resolve_hwnd_from_sdl_window : ℕ → Routes → ℕ
resolve_hwnd_from_sdl_window window_id r = elim (find_route_by_sdl_window window_id r.table) [
  | none ↦ 0
  | some idx ↦ (route_at r idx).hwnd
]

-- rb_event_resolve_hwnd_from_native_window
unfoldable pub resolve_hwnd_from_native_window : ℕ → Routes → ℕ
resolve_hwnd_from_native_window native_id r = elim (find_route_by_native_window native_id r.table) [
  | none ↦ 0
  | some idx ↦ (route_at r idx).hwnd
]

-- rb_event_resolve_backend_window
unfoldable pub resolve_backend_window : Table → ℕ → Routes → ℕ
resolve_backend_window t hwnd r = elim (find_route_by_hwnd hwnd r.table) [
  | none ↦ 0
  | some idx ↦ get_backend_window t (route_at r idx).backend_win
]

-- rb_event_window_route_hwnd_at
unfoldable pub window_route_hwnd_at : ℕ → Routes → ℕ
window_route_hwnd_at idx r = if leb (length r.table) idx then 0 else (route_at r idx).hwnd
