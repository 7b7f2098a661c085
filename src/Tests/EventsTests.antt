-- ===== src/Tests/EventsTests.antt =====
-- Routes and synthetic messages (src/backend/sdl2/rb_event_state.c).
use my_wine.Prelude.{
  ℕ, zero, suc, ◌≡◌, ◌≢◌, refl, arith, true, [], ◌∷◌, ◌++◌, none, some, replicate,
}
use my_wine.Prelude.Search.{find_index}
use my_wine.Handles.{Table, init, find_free, alloc, get, get_type}
use my_wine.Messages.{Msg, zero_msg}
use my_wine.Events.Routes.{
  no_route, RbWindow, Routes, type_rb_window, get_backend_window, find_route_by_hwnd, bind_window,
  unbind_window, resolve_backend_window, get_sdl_window_id,
}
use my_wine.Events.Routes.Bind.{IsClean, unbind_window-bind_window, bind_window_finds}
use my_wine.Events.Synthetic.{Synthetic, push_synthetic, pop_synthetic, pending}
use my_wine.Events.Synthetic.Fifo.{IsQueue, pending-push_synthetic, pending-pop_synthetic}

-- The handle 3 is a backend window at 77.
handles : Table
handles = (alloc type_rb_window 77 init).1

abbrev windows : ℕ → RbWindow
windows p = record { own_sdl_id = 5; own_native_id = 9 }

backend : get_backend_window handles 3 ≡ 77
unfolding handles get_backend_window get get_type alloc find_free init
backend = refl

no_backend : get_backend_window handles 3 ≢ 0
no_backend e = absurd (omega (arith, backend, e))

abbrev one_route : Routes
one_route = record {
  active = 40;
  table =
      record { hwnd = 40; backend_win = 3; sdl_window_id = 5; native_window_id = 9 }
      ∷ no_route
      ∷ [];
}

clean : IsClean one_route.table
unfolding IsClean
clean zero e = absurd (omega (arith, e))
clean (suc zero) e = refl
clean (suc (suc i)) e = refl

unbound : find_route_by_hwnd 41 one_route.table ≡ none
unfolding find_route_by_hwnd find_index
unbound = refl

unbind_window-bind_window_example :
    (r' : Routes) × (bind_window 1 true handles windows 41 3 one_route ≡ some (true, r'))
    × ((unbind_window 41 r').table ≡ one_route.table ++ replicate 2 no_route)
unbind_window-bind_window_example =
    unbind_window-bind_window 0 handles windows 41 3 one_route clean
      (λ e. absurd (omega (arith, e))) no_backend (λ e. absurd (omega (arith, e))) unbound

bind_window_finds_example :
    (r' : Routes) × (bind_window 1 true handles windows 40 3 one_route ≡ some (true, r'))
    × (resolve_backend_window handles 40 r' ≡ get_backend_window handles 3)
    × (get_sdl_window_id 40 r' ≡ 5)
bind_window_finds_example =
    bind_window_finds 0 handles windows 40 3 one_route (λ e. absurd (omega (arith, e))) no_backend
      (λ e. absurd (omega (arith, e)))

abbrev close_message : Msg
close_message = record zero_msg { hwnd = 40; message = 16 }

abbrev one_message : Synthetic
one_message = record { buffer = close_message ∷ []; count = 1 }

one_message-IsQueue : IsQueue one_message
unfolding IsQueue
one_message-IsQueue = omega arith

pending-push_synthetic_example :
    (q' : Synthetic) × (push_synthetic 1 true zero_msg close_message one_message ≡ some (true, q'))
    × (pending q' ≡ pending one_message ++ (close_message ∷ []))
    × IsQueue q'
pending-push_synthetic_example =
    pending-push_synthetic 0 zero_msg close_message one_message one_message-IsQueue

pending-pop_synthetic_example :
    (m : Msg) × ((pop_synthetic one_message).0 ≡ some m)
    × (pending one_message ≡ m ∷ pending (pop_synthetic one_message).1)
    × IsQueue (pop_synthetic one_message).1
pending-pop_synthetic_example = pending-pop_synthetic one_message one_message-IsQueue (omega arith)
