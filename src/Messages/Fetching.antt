-- ===== src/Messages/Fetching.antt =====
-- The quit flag, the three sources of a message and the calls over them, of
-- src/msvcrt/user32_message_queue.c and user32_message.c. The host's events come from
-- rb_event_wait and rb_event_peek, whose answers are a list here.
use my_wine.Prelude.{
  ℕ, ◌+◌, ◌-◌, ◌^◌, Bool, true, false, not, ◌&&◌, List, [], ◌∷◌, Option, none, some, leb, ◌==◌,
  if◌then◌else◌,
}
use my_wine.Handles.{Table}
use my_wine.Messages.{
  Msg, zero_msg, wm_quit, Filter, get_window_entry, target_alive, matches_filter, Queue, push,
  take_matching,
}

-- The globals of the file.
pub record State : Type 0 where
  pub quit_pending : Bool
  pub quit_exit_code : ℕ
  pub posted : Queue
  pub translated : Queue

-- `(WPARAM)g_quit_exit_code` in the 64-bit build: an int, as its bit pattern, with its sign in the
-- upper half.
abbrev pub to_w_param : ℕ → ℕ
to_w_param exit_code = if leb (2 ^ 31) exit_code then exit_code + (2 ^ 64 - 2 ^ 32) else exit_code

-- user32_synthesize_quit_message; its message is all zero but for these two fields.
unfoldable pub synthesize_quit_message : Table → Filter → Bool → State → Option Msg × State
synthesize_quit_message t f remove s =
    let msg = record zero_msg { message = wm_quit; w_param = to_w_param s.quit_exit_code } in
    if s.quit_pending
    then if not (matches_filter t f msg)
      then (none, s)
      else if remove
      then (some msg, record s { quit_pending = false })
      else (some msg, s)
    else (none, s)

-- What rb_event_wait or rb_event_peek returns: a negative number, zero or a positive one.
pub data Answer : Type 0 where
  negative zero_answer positive : Answer

-- The test that ends the loop of user32_fetch_queued_message with nothing.
unfoldable pub no_event : Bool → Answer → Msg → Bool
no_event blocking negative msg = true
no_event blocking zero_answer msg = if blocking then msg.message == 0 else true
no_event blocking positive msg = msg.message == 0

-- The loop of user32_fetch_queued_message over the host's answers; none when the list of answers
-- ends before the loop does. The last component is what the host still holds.
unfoldable pub fetch_host :
    Table
    → Filter
    → Bool
    → Bool
    → Queue
    → List (Answer × Msg)
    → Option (Option Msg × Queue × List (Answer × Msg))
fetch_host t f blocking remove q [] = none
fetch_host t f blocking remove q ((answer, incoming) ∷ events) =
    let (pushed, q') = push q incoming in
    let skipped = fetch_host t f blocking remove q events in
    let queued = fetch_host t f blocking remove q' events in
    if no_event blocking answer incoming
    then some (none, q, events)
    else if not (target_alive t incoming)
    then skipped
    else if matches_filter t f incoming
    then if remove
      then some (some incoming, q, events)
      else if pushed
      then some (some incoming, q', events)
      else some (none, q, events)
    else if pushed
    then queued
    else some (none, q, events)

-- user32_fetch_queued_message: the posted queue, the translated queue, then the host.
unfoldable pub fetch_queued_message :
    Table
    → Filter
    → Bool
    → Bool
    → State
    → List (Answer × Msg)
    → Option (Option Msg × State × List (Answer × Msg))
fetch_queued_message t f blocking remove s events = elim (take_matching t f remove s.posted) [
  | none ↦ none
  | some (some msg, posted) ↦ some (some msg, record s { posted = posted }, events)
  | some (none, posted) ↦ elim (take_matching t f remove s.translated) [
    | none ↦ none
    | some (some msg, translated) ↦
        some (some msg, record s { posted = posted; translated = translated }, events)
    | some (none, translated) ↦ elim (fetch_host t f blocking remove translated events) [
      | none ↦ none
      | some (msg, translated', left) ↦
          some (msg, record s { posted = posted; translated = translated' }, left)
    ]
  ]
]

-- PostMessageA: 0 for a dead window or a full queue.
unfoldable pub post_message : Table → ℕ → ℕ → ℕ → ℕ → State → Bool × State
post_message t hwnd message w_param l_param s =
    let msg = record zero_msg {
      hwnd = hwnd;
      message = message;
      w_param = w_param;
      l_param = l_param;
    } in
    let (ok, posted) = push s.posted msg in
    if not (hwnd == 0) && (get_window_entry t hwnd == 0)
    then (false, s)
    else (ok, record s { posted = posted })

-- PostQuitMessage
unfoldable pub post_quit_message : ℕ → State → State
post_quit_message exit_code s = record s { quit_pending = true; quit_exit_code = exit_code }

-- GetMessageA, up to the keyboard hook, whose answer it drops: what it returns and the message.
unfoldable pub get_message :
    Table
    → Filter
    → State
    → List (Answer × Msg)
    → Option (ℕ × Option Msg × State × List (Answer × Msg))
get_message t f s events =
    let fetched = fetch_queued_message t f true true s events in
    let (synthesized, s') = synthesize_quit_message t f true s in
    elim synthesized [
      | some quit ↦ some (0, some quit, s', events)
      | none ↦ elim fetched [
        | none ↦ none
        | some (none, s'', left) ↦ some (0, none, s'', left)
        | some (some msg, s'', left) ↦
            some ((if msg.message == wm_quit then 0 else 1), some msg, s'', left)
      ]
    ]

-- PeekMessageA, likewise; its flag `PM_REMOVE` is an argument.
unfoldable pub peek_message :
    Table
    → Filter
    → Bool
    → State
    → List (Answer × Msg)
    → Option (ℕ × Option Msg × State × List (Answer × Msg))
peek_message t f remove s events =
    let fetched = fetch_queued_message t f false remove s events in
    let (synthesized, s') = synthesize_quit_message t f remove s in
    elim synthesized [
      | some quit ↦ some (1, some quit, s', events)
      | none ↦ elim fetched [
        | none ↦ none
        | some (none, s'', left) ↦ some (0, none, s'', left)
        | some (some msg, s'', left) ↦ some (1, some msg, s'', left)
      ]
    ]
