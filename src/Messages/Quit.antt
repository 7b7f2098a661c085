-- ===== src/Messages/Quit.antt =====
-- The quit flag of src/msvcrt/user32_message_queue.c across the calls that a program makes.
use my_wine.Prelude.{
  ℕ, ◌≡◌, refl, ap, arith, Bool, true, false, List, [], ◌∷◌, Option, none, some, if◌then◌else◌,
}
use my_wine.Handles.{Table}
use my_wine.Messages.{Msg, Filter, zero_msg, wm_quit, matches_filter}
use my_wine.Messages.Fetching.{
  State, Answer, to_w_param, synthesize_quit_message, post_message, post_quit_message, get_message,
  peek_message,
}

-- A call that is made after PostQuitMessage: PostMessageA, a PeekMessageA that does not remove, with
-- what the host would give it, or PostQuitMessage once more.
pub data Call : Type 0 where
  posts : ℕ → ℕ → ℕ → ℕ → Call
  peeks : Filter → List (Answer × Msg) → Call
  quits : ℕ → Call

-- The state behind a peek; one that waits for the host for ever is left out.
after_peek : State → Option (ℕ × Option Msg × State × List (Answer × Msg)) → State
after_peek s none = s
after_peek s (some r) = r.2

unfoldable pub step : Table → State → Call → State
unfolding after_peek
step t s (posts hwnd message w_param l_param) = (post_message t hwnd message w_param l_param s).1
step t s (peeks f events) = after_peek s (peek_message t f false s events)
step t s (quits exit_code) = post_quit_message exit_code s

unfoldable pub run : Table → State → List Call → State
run t s [] = s
run t s (c ∷ cs) = run t (step t s c) cs

-- The exit code of the last PostQuitMessage.
unfoldable pub last_exit_code : ℕ → List Call → ℕ
last_exit_code exit_code [] = exit_code
last_exit_code exit_code (posts hwnd message w_param l_param ∷ cs) = last_exit_code exit_code cs
last_exit_code exit_code (peeks f events ∷ cs) = last_exit_code exit_code cs
last_exit_code exit_code (quits other ∷ cs) = last_exit_code other cs

-- The program is about to quit with a code.
record Quits (exit_code : ℕ) (s : State) : Type 0 where
  pending : s.quit_pending ≡ true
  code : s.quit_exit_code ≡ exit_code

abbrev pub quit_msg : ℕ → Msg
quit_msg exit_code = record zero_msg { message = wm_quit; w_param = to_w_param exit_code }

-- WM_QUIT passes every filter.
synthesized :
    (t : Table) (f : Filter) (remove : Bool) (exit_code : ℕ) (s : State)
    → Quits exit_code s
    → synthesize_quit_message t f remove s
      ≡ (some (quit_msg exit_code), if remove then record s { quit_pending = false } else s)
unfolding synthesize_quit_message matches_filter
synthesized t f true exit_code s q = rw (synthesize_quit_message, q.pending, q.code) refl
synthesized t f false exit_code s q = rw (synthesize_quit_message, q.pending, q.code) refl

peeked :
    (t : Table) (f : Filter) (remove : Bool) (exit_code : ℕ) (s : State)
    (events : List (Answer × Msg))
    → Quits exit_code s
    → peek_message t f remove s events
      ≡ some (
        1,
        some (quit_msg exit_code),
        if remove then record s { quit_pending = false } else s,
        events,
      )
unfolding peek_message
peeked t f remove exit_code s events q =
    let synth = synthesized t f remove exit_code s q in
    rw (peek_message, synth) (ap (λ r. some (1, some (quit_msg exit_code), r.1, events)) synth)

step-Quits :
    (t : Table) (exit_code : ℕ) (s : State) (c : Call)
    → Quits exit_code s
    → Quits (last_exit_code exit_code (c ∷ [])) (step t s c)
unfolding step last_exit_code post_message post_quit_message after_peek
step-Quits t exit_code s (posts hwnd message w_param l_param) q = ground arith
step-Quits t exit_code s (peeks f events) q = rw (peeked t f false exit_code s events q) q
step-Quits t exit_code s (quits other) q = record { pending = refl; code = refl }

run-Quits :
    (t : Table) (exit_code : ℕ) (s : State) (cs : List Call)
    → Quits exit_code s
    → Quits (last_exit_code exit_code cs) (run t s cs)
unfolding run last_exit_code
run-Quits t exit_code s [] q = q
run-Quits t exit_code s (posts hwnd message w_param l_param ∷ cs) q =
    run-Quits t exit_code _ cs (step-Quits t exit_code s (posts hwnd message w_param l_param) q)
run-Quits t exit_code s (peeks f events ∷ cs) q =
    run-Quits t exit_code _ cs (step-Quits t exit_code s (peeks f events) q)
run-Quits t exit_code s (quits other ∷ cs) q =
    run-Quits t other _ cs (step-Quits t exit_code s (quits other) q)

-- After PostQuitMessage, and any number of calls of PostMessageA, of PeekMessageA without removing
-- and of PostQuitMessage, WM_QUIT comes before anything that is queued, whatever the filter, with
-- the sign-extended exit code of the last PostQuitMessage: GetMessageA returns 0 with it and clears
-- the flag, and PeekMessageA returns 1 with it and clears the flag exactly if it removes.
pub get_message-post_quit_message :
    (t : Table) (f : Filter) (remove : Bool) (exit_code : ℕ) (s : State) (cs : List Call)
    (events : List (Answer × Msg))
    → let s' = run t (post_quit_message exit_code s) cs in
      let quit = quit_msg (last_exit_code exit_code cs) in
      (get_message t f s' events ≡ some (0, some quit, record s' { quit_pending = false }, events))
      × (peek_message t f remove s' events
          ≡ some (1, some quit, if remove then record s' { quit_pending = false } else s', events))
unfolding get_message post_quit_message
get_message-post_quit_message t f remove exit_code s cs events =
    let s' = run t (post_quit_message exit_code s) cs in
    let last = last_exit_code exit_code cs in
    let q : Quits last s' =
      run-Quits t exit_code (post_quit_message exit_code s) cs
        (record { pending = refl; code = refl }) in
    let synth = synthesized t f true last s' q in
    (
      rw (get_message, synth) (ap (λ r. some (0, some (quit_msg last), r.1, events)) synth),
      peeked t f remove last s' events q,
    )
