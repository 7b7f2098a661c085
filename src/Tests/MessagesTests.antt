-- ===== src/Tests/MessagesTests.antt =====
-- The message queues of src/msvcrt/user32_message_queue.c with a few messages.
use my_wine.Prelude.{ℕ, ◌-◌, ◌^◌, ◌≡◌, refl, arith, true, false, List, [], ◌∷◌, some, replicate}
use my_wine.Handles.{Table}
use my_wine.Handles
use my_wine.Messages.{
  Msg, Filter, Queue, zero_msg, push, take_matching, target_alive, matches_filter,
  is_keyboard_message, get_window_entry,
}
use my_wine.Messages.Fetching.{
  State, Answer, negative, positive, no_event, fetch_host, post_quit_message, get_message,
  peek_message, to_w_param,
}
use my_wine.Messages.Ring.{contents, IsRing}
use my_wine.Messages.Take.{take_matching_refines, take_spec}
use my_wine.Messages.Fetch.{Keeps, fetch_host-Keeps}
use my_wine.Messages.Quit.{
  Call, posts, peeks, quits, run, last_exit_code, quit_msg, get_message-post_quit_message,
}

-- Messages to no window, which are alive.
abbrev note : ℕ → Msg
note message = record zero_msg { message = message }

-- A message to a window that does not exist.
abbrev stray : Msg
stray = record zero_msg { hwnd = 9; message = 15 }

abbrev empty : Queue
empty = record { buf = replicate 64 zero_msg; head = 0; count = 0 }

-- Two messages across the end of the array, and a stray one between them.
abbrev three : Queue
three = (push (push (push (record empty { head = 63 }) (note 5)).1 stray).1 (note 7)).1

three-IsRing : IsRing three
three-IsRing = unfold push in record { size = refl; bound = omega arith }

-- Every message from number 6 on.
abbrev from_six : Filter
from_six = record { hwnd = 0; min = 6; max = 0 }

take_matching_refines_example :
    (q' : Queue) × (take_matching Handles.init from_six true three
      ≡ some ((take_spec Handles.init from_six true (contents three)).0, q'))
    × IsRing q'
    × (contents q' ≡ (take_spec Handles.init from_six true (contents three)).1)
take_matching_refines_example = take_matching_refines Handles.init from_six true three three-IsRing

-- The host gives a stray message, one that does not match, and one that does.
abbrev host : List (Answer × Msg)
host = (positive, stray) ∷ (positive, note 5) ∷ (positive, note 6) ∷ (negative, zero_msg) ∷ []

fetch_host-Keeps_example :
    Keeps Handles.init from_six true true empty host
      (some (note 6))
      (push empty (note 5)).1
      ((negative, zero_msg) ∷ [])
fetch_host-Keeps_example =
    fetch_host-Keeps Handles.init from_six true true empty host (some (note 6))
      (push empty (note 5)).1 ((negative, zero_msg) ∷ [])
      (record { size = refl; bound = omega arith }) fetched
  where
    fetched :
        fetch_host Handles.init from_six true true empty host
        ≡ some (some (note 6), (push empty (note 5)).1, (negative, zero_msg) ∷ [])
    fetched =
        unfold fetch_host push no_event target_alive matches_filter get_window_entry
          is_keyboard_message Handles.get Handles.get_type Handles.init in
        refl

abbrev state : State
state = record { quit_pending = false; quit_exit_code = 0; posted = three; translated = empty }

-- A message is posted and the program peeks before it quits once more, with the code -1.
abbrev goodbye : List Call
goodbye = posts 0 5 0 0 ∷ peeks from_six host ∷ quits (2 ^ 32 - 1) ∷ []

minus_one_code : to_w_param (last_exit_code 3 goodbye) ≡ 2 ^ 64 - 1
unfolding last_exit_code
minus_one_code = refl

get_message-post_quit_message_example :
    let s' = run Handles.init (post_quit_message 3 state) goodbye in
    let quit = quit_msg (last_exit_code 3 goodbye) in
    (get_message Handles.init from_six s' host
      ≡ some (0, some quit, record s' { quit_pending = false }, host))
    × (peek_message Handles.init from_six false s' host ≡ some (1, some quit, s', host))
get_message-post_quit_message_example =
    get_message-post_quit_message Handles.init from_six false 3 state goodbye host
