-- ===== src/Messages.antt =====
-- The rings and filters of src/msvcrt/user32_message_queue.c, with the key test of
-- user32_message_hook.c and the window lookup of user32_priv.h. A queue is a ring of 64 messages.
pub mod Fetching
pub mod Ring
pub mod Take
pub mod Fetch
pub mod Quit
use my_wine.Prelude.{
  ℕ, zero, suc, ◌+◌, ◌-◌, ◌%◌, ◌^◌, ◌≡◌, Bool, true, false, not, ◌&&◌, ◌||◌, List, [], ◌∷◌, Option,
  none, some, get_or, set, ltb, leb, ◌==◌, if◌then◌else◌,
}
use my_wine.Handles.{Table, get, get_type, type_hwin}

-- `rb_msg_t`
pub record Msg : Type 0 where
  pub hwnd : ℕ
  pub message : ℕ
  pub w_param : ℕ
  pub l_param : ℕ
  pub time : ℕ
  pub pt_x : ℕ
  pub pt_y : ℕ

abbrev pub zero_msg : Msg
zero_msg = record { hwnd = 0; message = 0; w_param = 0; l_param = 0; time = 0; pt_x = 0; pt_y = 0 }

abbrev pub wm_quit : ℕ
wm_quit = 0x0012

-- The arguments that choose messages.
pub record Filter : Type 0 where
  pub hwnd : ℕ
  pub min : ℕ
  pub max : ℕ

-- get_window_entry; 0 is NULL.
unfoldable pub get_window_entry : Table → ℕ → ℕ
get_window_entry t hwnd =
    let handle = hwnd % 2 ^ 32 in
    if (get t handle == 0) || not (get_type t handle == type_hwin) then 0 else get t handle

-- user32_is_keyboard_message: WM_KEYDOWN, WM_KEYUP, WM_SYSKEYDOWN and WM_SYSKEYUP.
unfoldable pub is_keyboard_message : ℕ → Bool
is_keyboard_message message =
    (message == 0x0100) || (message == 0x0101) || (message == 0x0104) || (message == 0x0105)

-- user32_message_target_alive
unfoldable pub target_alive : Table → Msg → Bool
target_alive t msg =
    if (msg.message == wm_quit) || (msg.hwnd == 0)
    then true
    else not (get_window_entry t msg.hwnd == 0)

-- The window that user32_message_matches_filter asks for once its two tests have dropped the
-- filter of a key message or of a dead window.
effective_hwnd : Table → Filter → ℕ → ℕ
effective_hwnd t f message =
    let hwnd = if is_keyboard_message message then 0 else f.hwnd in
    if not (hwnd == 0) && (get_window_entry t hwnd == 0) then 0 else hwnd

-- user32_message_matches_filter
unfoldable pub matches_filter : Table → Filter → Msg → Bool
unfolding effective_hwnd
matches_filter t f msg =
    let hwnd = effective_hwnd t f msg.message in
    if msg.message == wm_quit
    then true
    else if not (hwnd == 0) && not (msg.hwnd == hwnd)
    then false
    else if (f.min == 0) && (f.max == 0)
    then true
    else if f.max == 0
    then leb f.min msg.message
    else leb f.min msg.message && leb msg.message f.max

-- USER32_TRANSLATED_QUEUE_CAPACITY and USER32_POSTED_QUEUE_CAPACITY
abbrev pub capacity : ℕ
capacity = 64

-- One ring: the array with its head and count.
pub record Queue : Type 0 where
  pub buf : List Msg
  pub head : ℕ
  pub count : ℕ

abbrev pub read : List Msg → ℕ → Msg
read buf i = get_or buf i zero_msg

-- user32_queue_push: whether there was room, and the queue.
unfoldable pub push : Queue → Msg → Bool × Queue
push q msg = if leb capacity q.count then (false, q) else (
  true,
  record q { buf = set q.buf ((q.head + q.count) % capacity) msg; count = q.count + 1 },
)

-- user32_queue_find_matching from offset i, over the rounds left; none for -1.
unfoldable pub find_from : (Msg → Bool) → List Msg → ℕ → ℕ → ℕ → Option ℕ
find_from p buf head zero i = none
find_from p buf head (suc rounds) i =
    let rest = find_from p buf head rounds (i + 1) in
    if p (read buf ((head + i) % capacity)) then some ((head + i) % capacity) else rest

unfoldable pub find_matching : (Msg → Bool) → Queue → Option ℕ
unfolding find_from
find_matching p q = find_from p q.buf q.head q.count 0

-- The loop of user32_queue_take_at that closes the gap at i; none when the fuel runs out.
unfoldable pub shift : ℕ → ℕ → ℕ → List Msg → Option (List Msg)
shift zero i last buf = none
shift (suc fuel) i last buf =
    let next = (i + 1) % capacity in
    let rest = shift fuel next last (set buf i (read buf next)) in
    if i == last then some buf else rest

-- user32_queue_take_at: the message, if any, and the queue.
unfoldable pub take_at : Queue → Option ℕ → Bool → Option (Option Msg × Queue)
take_at q none remove = some (none, q)
take_at q (some idx) remove =
    let gap = shift capacity idx ((q.head + q.count - 1) % capacity) q.buf in
    if q.count == 0
    then some (none, q)
    else if not remove
    then some (some (read q.buf idx), q)
    else elim gap [
      | none ↦ none
      | some buf ↦ some (some (read q.buf idx), record q { buf = buf; count = q.count - 1 })
    ]

-- The loop of user32_queue_discard_dead_targets: the write count and the array.
unfoldable pub compact : (Msg → Bool) → ℕ → ℕ → ℕ → ℕ → List Msg → ℕ × List Msg
compact alive head zero i write_count buf = (write_count, buf)
compact alive head (suc rounds) i write_count buf =
    let msg = read buf ((head + i) % capacity) in
    let kept =
      compact alive head rounds (i + 1) (write_count + 1)
        (set buf ((head + write_count) % capacity) msg) in
    let dropped = compact alive head rounds (i + 1) write_count buf in
    if alive msg then kept else dropped

unfoldable pub discard_dead_targets : (Msg → Bool) → Queue → Queue
discard_dead_targets alive q =
    let (count, buf) = compact alive q.head q.count 0 0 q.buf in
    if q.count == 0 then q else record q { buf = buf; count = count }

-- user32_posted_queue_take_matching and user32_translated_queue_take_matching, which differ in the
-- queue only.
unfoldable pub take_matching : Table → Filter → Bool → Queue → Option (Option Msg × Queue)
take_matching t f remove q =
    let live = discard_dead_targets (target_alive t) q in
    take_at live (find_matching (matches_filter t f) live) remove
