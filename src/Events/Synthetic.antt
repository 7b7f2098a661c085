-- ===== src/Events/Synthetic.antt =====
-- src/backend/sdl2/rb_event_state.c: the queue of synthetic messages. The buffer has the capacity as its
-- length, and what realloc leaves in new places is an argument.
pub mod Fifo
use my_wine.Prelude.{
  ℕ, zero, suc, ◌+◌, ◌-◌, ◌*◌, Bool, true, false, List, [], ◌∷◌, ◌++◌, Option, none, some, length,
  get_or, set, replicate, take, leb, ◌==◌, if◌then◌else◌,
}
use my_wine.Classes.{doubled}
use my_wine.Messages.{Msg, zero_msg}

-- `g_synthetic_queue` and `g_synthetic_queue_count`
pub record Synthetic : Type 0 where
  pub buffer : List Msg
  pub count : ℕ

-- rb_event_ensure_synthetic_capacity: none where it fails, and the outer none is fuel that ran out.
unfoldable pub ensure_synthetic_capacity :
    ℕ → Bool → Msg → ℕ → List Msg → Option (Option (List Msg))
ensure_synthetic_capacity fuel memory fresh needed buffer =
    if leb needed (length buffer)
    then some (some buffer)
    else elim (doubled fuel needed (if length buffer == 0 then 8 else length buffer * 2)) [
      | none ↦ none
      | some new_capacity ↦
          some (
            if memory
            then some (buffer ++ replicate (new_capacity - length buffer) fresh)
            else none)
    ]

-- rb_event_push_synthetic: whether it returned RB_OK, and the queue.
unfoldable pub push_synthetic : ℕ → Bool → Msg → Msg → Synthetic → Option (Bool × Synthetic)
push_synthetic fuel memory fresh msg q =
    elim (ensure_synthetic_capacity fuel memory fresh (q.count + 1) q.buffer) [
      | none ↦ none
      | some none ↦ some (false, q)
      | some (some buffer) ↦
          some (true, record { buffer = set buffer q.count msg; count = q.count + 1 })
    ]

-- The loop of rb_event_pop_synthetic for `rounds` indices from `i` on.
unfoldable pub move_down : ℕ → ℕ → List Msg → List Msg
move_down zero i buffer = buffer
move_down (suc rounds) i buffer =
    move_down rounds (i + 1) (set buffer (i - 1) (get_or buffer i zero_msg))

-- rb_event_pop_synthetic: the message, and the queue.
unfoldable pub pop_synthetic : Synthetic → Option Msg × Synthetic
pop_synthetic q = if q.count == 0 then (none, q) else (
  some (get_or q.buffer 0 zero_msg),
  record { buffer = move_down (q.count - 1) 1 q.buffer; count = q.count - 1 },
)

-- The messages in the queue, the oldest first.
unfoldable pub pending : Synthetic → List Msg
pending q = take q.count q.buffer
