-- ===== src/Events/Routes/Bind.antt =====
-- Binding and unbinding windows in src/backend/sdl2/rb_event_state.c.
use my_wine.Prelude.{
  ℕ, zero, suc, ◌+◌, ◌-◌, ◌*◌, ◌<◌, ◌≡◌, ◌≢◌, refl, ap, sym, ◌∙◌, arith, inl, inr, Bool, true,
  false, ◌||◌, List, [], ◌∷◌, ◌++◌, none, some, length, get_or, get_or-set_self, set, set-set,
  set-get_or, replicate, leb, ◌==◌, if◌then◌else◌, Bool-cases, Option-cases,
}
use my_wine.Prelude.Search.{
  find_index, find_index-none, find_index-hit, find_index-set, find_index-rewrite,
}
use my_wine.Handles.{Table}
use my_wine.Classes.{doubled}
use my_wine.Events.Routes.{
  Route, no_route, RbWindow, Routes, get_backend_window, ensure_route_capacity, find_route_by_hwnd,
  alloc_route_slot, route_to, bind_window, unbind_window, get_sdl_window_id, resolve_backend_window,
}

-- A free slot is all zeros.
unfoldable pub IsClean : List Route → Type 0
IsClean table = (i : ℕ) → (get_or table i no_route).hwnd ≡ 0 → get_or table i no_route ≡ no_route

find_index-append_none :
    (p : Route → Bool) (table : List Route) (n : ℕ)
    → find_index p table ≡ none
    → p no_route ≡ false
    → find_index p (table ++ replicate n no_route) ≡ none
unfolding find_index
find_index-append_none p [] zero e h = refl
find_index-append_none p [] (suc n) e h = rw (h, find_index-append_none p [] n refl h) refl
find_index-append_none p (x ∷ table) n e h =
    let parts = find_index-none p x table e in
    rw (parts.0, find_index-append_none p table n parts.1 h) refl

-- There is a free slot among new ones.
find_index-append :
    (p : Route → Bool) (table : List Route) (n : ℕ)
    → p no_route ≡ true
    → (i : ℕ) × (find_index p (table ++ replicate (suc n) no_route) ≡ some i)
unfolding find_index
find_index-append p [] n h = rw h (0, refl)
find_index-append p (x ∷ table) n h =
    let rest = find_index-append p table n h in
    elim (Bool-cases (p x)) [
      | inl here ↦ rw here (0, refl)
      | inr other ↦ rw (other, rest.1) (suc rest.0, refl)
    ]

append-IsClean :
    (table : List Route) (n : ℕ) → IsClean table → IsClean (table ++ replicate n no_route)
unfolding IsClean
append-IsClean [] zero h i e = refl
append-IsClean [] (suc n) h zero e = refl
append-IsClean [] (suc n) h (suc i) e = append-IsClean [] n (λ j z. refl) i e
append-IsClean (x ∷ table) n h zero e = h 0 e
append-IsClean (x ∷ table) n h (suc i) e = append-IsClean table n (λ j z. h (suc j) z) i e

-- The slots that a table of this length gets when it grows.
abbrev pub growth : ℕ → ℕ
growth capacity = if capacity == 0 then 16 else capacity

ensure_route_capacity-grows :
    (fuel : ℕ) (table : List Route)
    → ensure_route_capacity (suc fuel) true (length table + 1) table
      ≡ some (some (table ++ replicate (growth (length table)) no_route))
unfolding ensure_route_capacity doubled
ensure_route_capacity-grows fuel table =
    let c = length table in
    let full : leb (c + 1) c ≡ false = ground arith in
    let size : (if c == 0 then 16 else c * 2) - c ≡ growth c = ground arith in
    let more : doubled (suc fuel) (c + 1) (if c == 0 then 16 else c * 2)
        ≡ some (if c == 0 then 16 else c * 2) =
      ground arith in
    rw (ensure_route_capacity, full, more, size) refl

-- The slot that a new binding gets, in the table that has grown.
new_slot :
    (table : List Route) (n : ℕ)
    → 0 < n
    → (i : ℕ) × (find_index (λ r. r.hwnd == 0) (table ++ replicate n no_route) ≡ some i)
new_slot table n h =
    let m : n ≡ suc (n - 1) = omega arith in
    rw m (find_index-append (λ r. r.hwnd == 0) table (n - 1) refl)

-- What a binding that may go ahead does with a window that has no route.
bind_window-new :
    (fuel : ℕ) (t : Table) (windows : ℕ → RbWindow) (hwnd win : ℕ) (r : Routes)
    → ((hwnd == 0)
        || (get_backend_window t win == 0)
        || ((windows (get_backend_window t win)).own_sdl_id == 0))
      ≡ false
    → find_route_by_hwnd hwnd r.table ≡ none
    → let grown = r.table ++ replicate (growth (length r.table)) no_route in
      (i : ℕ) × (find_index (λ x. x.hwnd == 0) grown ≡ some i)
      × (bind_window (suc fuel) true t windows hwnd win r
          ≡ some (
            true,
            record r { table = set grown i (route_to windows hwnd win (get_backend_window t win)) },
          ))
unfolding bind_window alloc_route_slot
bind_window-new fuel t windows hwnd win r fine unbound =
    let positive : 0 < growth (length r.table) = ground arith in
    let slot = new_slot r.table (growth (length r.table)) positive in
    (
      slot.0,
      slot.1,
      rw (bind_window, fine, unbound, ensure_route_capacity-grows fuel r.table, slot.1) refl,
    )

-- The search by the handle on the table that has grown.
grown-none :
    (hwnd : ℕ) (table : List Route) (n : ℕ)
    → hwnd ≢ 0
    → find_route_by_hwnd hwnd table ≡ none
    → find_route_by_hwnd hwnd (table ++ replicate n no_route) ≡ none
unfolding find_route_by_hwnd
grown-none hwnd table n real unbound =
    find_index-append_none (λ r. r.hwnd == hwnd) table n unbound (ground (arith, real))

-- A binding of a window that has no route, to a backend window that is there, succeeds while there is
-- memory, and unbinding it leaves the table with as many more free slots as it had slots before (16
-- for the first): no slot that was free is ever used without growing.
pub unbind_window-bind_window :
    (fuel : ℕ) (t : Table) (windows : ℕ → RbWindow) (hwnd win : ℕ) (r : Routes)
    → IsClean r.table
    → hwnd ≢ 0
    → get_backend_window t win ≢ 0
    → (windows (get_backend_window t win)).own_sdl_id ≢ 0
    → find_route_by_hwnd hwnd r.table ≡ none
    → (r' : Routes) × (bind_window (suc fuel) true t windows hwnd win r ≡ some (true, r'))
      × ((unbind_window hwnd r').table ≡ r.table ++ replicate (growth (length r.table)) no_route)
unfolding bind_window unbind_window find_route_by_hwnd alloc_route_slot IsClean
unbind_window-bind_window fuel t windows hwnd win r clean real there shown unbound =
    let wnd = get_backend_window t win in
    let route = route_to windows hwnd win wnd in
    let grown = r.table ++ replicate (growth (length r.table)) no_route in
    let fine : ((hwnd == 0) || (wnd == 0) || ((windows wnd).own_sdl_id == 0)) ≡ false =
      ground arith in
    let new = bind_window-new fuel t windows hwnd win r fine unbound in
    let i = new.0 in
    let hit = find_index-hit (λ x. x.hwnd == 0) grown i no_route new.1 in
    let own : (hwnd == hwnd) ≡ true = ground arith in
    let found : find_route_by_hwnd hwnd (set grown i route) ≡ some i =
      find_index-set (λ x. x.hwnd == hwnd) grown i route
        (grown-none hwnd r.table (growth (length r.table)) real unbound) hit.0 own in
    let zeros : get_or grown i no_route ≡ no_route =
      append-IsClean r.table (growth (length r.table)) clean i (ground (arith, hit.1)) in
    let back : set (set grown i route) i no_route ≡ grown =
      set-set grown i route no_route
      ∙ ap (λ x. set grown i x) (sym zeros)
      ∙ set-get_or grown i no_route in
    (record r { table = set grown i route }, new.2, rw (unbind_window, found) back)

-- A binding to a backend window that is there succeeds while there is memory, whether the window
-- had a route or not, and the window's handle then leads to that backend window and to its
-- identifier.
pub bind_window_finds :
    (fuel : ℕ) (t : Table) (windows : ℕ → RbWindow) (hwnd win : ℕ) (r : Routes)
    → hwnd ≢ 0
    → get_backend_window t win ≢ 0
    → (windows (get_backend_window t win)).own_sdl_id ≢ 0
    → (r' : Routes) × (bind_window (suc fuel) true t windows hwnd win r ≡ some (true, r'))
      × (resolve_backend_window t hwnd r' ≡ get_backend_window t win)
      × (get_sdl_window_id hwnd r' ≡ (windows (get_backend_window t win)).own_sdl_id)
unfolding bind_window resolve_backend_window get_sdl_window_id find_route_by_hwnd
bind_window_finds fuel t windows hwnd win r real there shown =
    let wnd = get_backend_window t win in
    let route = route_to windows hwnd win wnd in
    let own : (hwnd == hwnd) ≡ true = ground arith in
    let fine : ((hwnd == 0) || (wnd == 0) || ((windows wnd).own_sdl_id == 0)) ≡ false =
      ground arith in
    elim (Option-cases (find_route_by_hwnd hwnd r.table)) [
      | inr old ↦
          let hit = find_index-hit (λ x. x.hwnd == hwnd) r.table old.0 no_route old.1 in
          let found : find_route_by_hwnd hwnd (set r.table old.0 route) ≡ some old.0 =
            find_index-rewrite (λ x. x.hwnd == hwnd) r.table old.0 route old.1 own in
          let there' : get_or (set r.table old.0 route) old.0 no_route ≡ route =
            get_or-set_self r.table old.0 route no_route hit.0 in
          (
            record r { table = set r.table old.0 route },
            rw (bind_window, fine, old.1) refl,
            rw (resolve_backend_window, found, there') refl,
            rw (get_sdl_window_id, found, there') refl,
          )
      | inl unbound ↦
          let grown = r.table ++ replicate (growth (length r.table)) no_route in
          let new = bind_window-new fuel t windows hwnd win r fine unbound in
          let hit = find_index-hit (λ x. x.hwnd == 0) grown new.0 no_route new.1 in
          let found : find_route_by_hwnd hwnd (set grown new.0 route) ≡ some new.0 =
            find_index-set (λ x. x.hwnd == hwnd) grown new.0 route
              (grown-none hwnd r.table (growth (length r.table)) real unbound) hit.0 own in
          let there' : get_or (set grown new.0 route) new.0 no_route ≡ route =
            get_or-set_self grown new.0 route no_route hit.0 in
          (
            record r { table = set grown new.0 route },
            new.2,
            rw (resolve_backend_window, found, there') refl,
            rw (get_sdl_window_id, found, there') refl,
          )
    ]
