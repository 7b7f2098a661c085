-- ===== src/Messages/Ring/Shift.antt =====
-- The loop of user32_queue_take_at that closes the gap behind a message.
use my_wine.Prelude.{
  ℕ, zero, suc, ◌+◌, ◌%◌, ◌<◌, ◌≡◌, ◌≢◌, refl, ◌∙◌, arith, false, List, ◌∷◌, some, get_or-set,
  get_or-set_ne, set, length, length-set, ◌==◌,
}
use mathlib.Core.Path.{ap₂}
use my_wine.Messages.{Msg, zero_msg, capacity, read, shift}
use my_wine.Messages.Ring.{window, window-set}

-- The array after the `r` messages behind position `p` have moved one place down.
pub moved : ℕ → ℕ → List Msg → List Msg
moved zero p buf = buf
moved (suc r) p buf = moved r (p + 1) (set buf (p % capacity) (read buf ((p + 1) % capacity)))

pub length-moved : (r p : ℕ) (buf : List Msg) → length (moved r p buf) ≡ length buf
unfolding moved
length-moved zero p buf = refl
length-moved (suc r) p buf =
    length-moved r (p + 1) (set buf (p % capacity) (read buf ((p + 1) % capacity)))
    ∙ length-set buf (p % capacity) (read buf ((p + 1) % capacity))

-- The loop does that, with fuel for its rounds.
pub shift-moved :
    (r fuel p : ℕ) (buf : List Msg)
    → r < fuel
    → r < capacity
    → shift fuel (p % capacity) ((p + r) % capacity) buf ≡ some (moved r p buf)
unfolding shift moved
shift-moved zero zero p buf enough short = absurd (omega arith)
shift-moved (suc r) zero p buf enough short = absurd (omega arith)
shift-moved zero (suc fuel) p buf enough short = ground arith
shift-moved (suc r) (suc fuel) p buf enough short =
    let next : (p % capacity + 1) % capacity ≡ (p + 1) % capacity = omega arith in
    let last : (p + suc r) % capacity ≡ (p + 1 + r) % capacity = omega arith in
    let rest =
      shift-moved r fuel (p + 1) (set buf (p % capacity) (read buf ((p + 1) % capacity)))
        (omega arith) (omega arith) in
    let more : (p % capacity == (p + suc r) % capacity) ≡ false = ground arith in
    rw (more, next, last) rest

-- The move reads outside its range as before.
pub moved_outside :
    (r p j : ℕ) (buf : List Msg)
    → ((d : ℕ) → d < r → (p + d) % capacity ≢ j)
    → read (moved r p buf) j ≡ read buf j
unfolding moved
moved_outside zero p j buf away = refl
moved_outside (suc r) p j buf away =
    moved_outside r (p + 1) j (set buf (p % capacity) (read buf ((p + 1) % capacity)))
      (λ d h e. away (d + 1) (omega arith) (omega (arith, e)))
    ∙ get_or-set_ne buf (p % capacity) j (read buf ((p + 1) % capacity)) zero_msg
        (λ e. away 0 (omega arith) (omega (arith, e)))

-- And inside it, the messages from the next position on.
pub window-moved :
    (r p : ℕ) (buf : List Msg)
    → length buf ≡ capacity
    → r < capacity
    → window (moved r p buf) p r ≡ window buf (p + 1) r
unfolding moved
window-moved zero p buf size short = refl
window-moved (suc r) p buf size short =
    let v = read buf ((p + 1) % capacity) in
    let buf' = set buf (p % capacity) v in
    ap₂ ◌∷◌
      (moved_outside r (p + 1) (p % capacity) buf' (λ d h. omega arith)
        ∙ ground (arith, get_or-set buf (p % capacity) (p % capacity) v zero_msg))
      (window-moved r (p + 1) buf' (length-set buf (p % capacity) v ∙ size) (omega arith)
        ∙ window-set buf (p + 1 + 1) r (p % capacity) v (λ d h. omega arith))
