-- ===== src/Events/Synthetic/Fifo.antt =====
-- The queue of synthetic messages in src/backend/sdl2/rb_event_state.c as a list of messages.
use my_wine.Prelude.{
  ℕ, zero, suc, ◌+◌, ◌-◌, ◌*◌, ◌≤◌, ◌<◌, ◌≡◌, refl, ap, sym, ◌∙◌, arith, inl, inr, true, false,
  List, [], ◌∷◌, ◌++◌, some, length, length-set, length-append, get_or, set, replicate, take, leb,
  ◌==◌, if◌then◌else◌, Bool-cases,
}
use my_wine.Classes.{doubled}
use my_wine.Messages.{Msg, zero_msg}
use my_wine.Events.Synthetic.{
  Synthetic, ensure_synthetic_capacity, push_synthetic, move_down, pop_synthetic, pending,
}

-- The buffer has room for what is in the queue.
unfoldable pub IsQueue : Synthetic → Type 0
IsQueue q = q.count ≤ length q.buffer

-- A capacity that is doubled has room for one more.
doubled_enough :
    (fuel initial capacity needed : ℕ)
    → 0 < initial
    → needed ≤ capacity + 1
    → doubled (suc fuel) needed (if capacity == 0 then initial else capacity * 2)
      ≡ some (if capacity == 0 then initial else capacity * 2)
unfolding doubled
doubled_enough fuel initial capacity needed some_places h = ground arith

take-set :
    (xs : List Msg) (n : ℕ) (v : Msg)
    → n < length xs
    → take (suc n) (set xs n v) ≡ take n xs ++ (v ∷ [])
take-set [] n v h = absurd (omega arith)
take-set (x ∷ xs) zero v h = refl
take-set (x ∷ xs) (suc n) v h = ap (λ ys. x ∷ ys) (take-set xs n v (omega arith))

take-append : (xs ys : List Msg) (n : ℕ) → n ≤ length xs → take n (xs ++ ys) ≡ take n xs
take-append xs ys zero h = refl
take-append [] ys (suc n) h = absurd (omega arith)
take-append (x ∷ xs) ys (suc n) h = ap (λ zs. x ∷ zs) (take-append xs ys n (omega arith))

length-replicate : (n : ℕ) (v : Msg) → length (replicate n v) ≡ n
length-replicate zero v = refl
length-replicate (suc n) v = omega (arith, length-replicate n v)

-- A message stored behind the others in a buffer that keeps them.
stored :
    (q : Synthetic) (buffer : List Msg) (msg : Msg)
    → q.count < length buffer
    → take q.count buffer ≡ pending q
    → let q' : Synthetic = record { buffer = set buffer q.count msg; count = q.count + 1 } in
      (pending q' ≡ pending q ++ (msg ∷ [])) × IsQueue q'
unfolding pending IsQueue
stored q buffer msg room same =
    let n : q.count + 1 ≡ suc q.count = omega arith in
    (
      ap (λ k. take k (set buffer q.count msg)) n
          ∙ take-set buffer q.count msg room
          ∙ ap (λ xs. xs ++ (msg ∷ [])) same,
      rw (length-set buffer q.count msg) (omega arith),
    )

-- While there is memory, rb_event_push_synthetic succeeds on every queue, and puts the message behind
-- the ones that were in the queue, also where the buffer has to grow.
pub pending-push_synthetic :
    (fuel : ℕ) (fresh msg : Msg) (q : Synthetic)
    → IsQueue q
    → (q' : Synthetic) × (push_synthetic (suc fuel) true fresh msg q ≡ some (true, q'))
      × (pending q' ≡ pending q ++ (msg ∷ []))
      × IsQueue q'
unfolding push_synthetic ensure_synthetic_capacity IsQueue pending
pending-push_synthetic fuel fresh msg q h =
    let c = length q.buffer in
    elim (Bool-cases (leb (q.count + 1) c)) [
      | inl room ↦
          let done = stored q q.buffer msg (ground (arith, room)) refl in
          rw (push_synthetic, room)
            (
              record { buffer = set q.buffer q.count msg; count = q.count + 1 },
              refl,
              done.0,
              done.1,
            )
      | inr full ↦
          let more = doubled_enough fuel 8 c (q.count + 1) (omega arith) (omega (arith, h)) in
          let bigger = if c == 0 then 8 else c * 2 in
          let grown = q.buffer ++ replicate (bigger - c) fresh in
          let size : q.count < length grown =
            rw
              (
                length-append q.buffer (replicate (bigger - c) fresh),
                length-replicate (bigger - c) fresh,
              )
              (ground (arith, h)) in
          let done =
            stored q grown msg size
              (take-append q.buffer (replicate (bigger - c) fresh) q.count h) in
          rw (push_synthetic, full, more)
            (record { buffer = set grown q.count msg; count = q.count + 1 }, refl, done.0, done.1)
    ]

-- The moves behind the first place are the moves of the rest.
move_down-cons :
    (rounds i : ℕ) (p : Msg) (ys : List Msg)
    → move_down rounds (suc (suc i)) (p ∷ ys) ≡ p ∷ move_down rounds (suc i) ys
unfolding move_down
move_down-cons zero i p ys = refl
move_down-cons (suc rounds) i p ys =
    let a : suc (suc i) - 1 ≡ suc i = omega arith in
    let b : suc i - 1 ≡ i = omega arith in
    let c : suc (suc i) + 1 ≡ suc (suc (suc i)) = omega arith in
    let d : suc i + 1 ≡ suc (suc i) = omega arith in
    rw (a, b, c, d) (move_down-cons rounds (suc i) p (set ys i (get_or ys (suc i) zero_msg)))

take-move_down :
    (n : ℕ) (x : Msg) (xs : List Msg)
    → n ≤ length xs
    → (take n (move_down n 1 (x ∷ xs)) ≡ take n xs)
      × (length (move_down n 1 (x ∷ xs)) ≡ suc (length xs))
unfolding move_down
take-move_down zero x xs h = (refl, refl)
take-move_down (suc n) x [] h = absurd (omega arith)
take-move_down (suc n) x (y ∷ xs) h =
    let ih = take-move_down n y xs (omega arith) in
    rw (move_down-cons n 0 y (y ∷ xs)) (ap (λ ys. y ∷ ys) ih.0, omega (arith, ih.1))

-- The front of the buffer, and what the moves leave of the rest.
pop_parts :
    (n : ℕ) (buffer : List Msg)
    → suc n ≤ length buffer
    → (take (suc n) buffer ≡ get_or buffer 0 zero_msg ∷ take n (move_down n 1 buffer))
      × (n ≤ length (move_down n 1 buffer))
pop_parts n [] h = absurd (omega arith)
pop_parts n (x ∷ xs) h =
    let rest = take-move_down n x xs (omega arith) in
    (ap (λ ys. x ∷ ys) (sym rest.0), omega (arith, rest.1))

-- rb_event_pop_synthetic takes the oldest message of a queue that is not empty, and leaves the
-- others in their order.
pub pending-pop_synthetic :
    (q : Synthetic)
    → IsQueue q
    → 0 < q.count
    → (m : Msg) × ((pop_synthetic q).0 ≡ some m)
      × (pending q ≡ m ∷ pending (pop_synthetic q).1)
      × IsQueue (pop_synthetic q).1
unfolding pop_synthetic pending IsQueue
pending-pop_synthetic q h some_messages =
    let busy : (q.count == 0) ≡ false = ground arith in
    let n : q.count ≡ suc (q.count - 1) = omega arith in
    let parts = pop_parts (q.count - 1) q.buffer (omega (arith, h)) in
    rw busy (get_or q.buffer 0 zero_msg, refl, ap (λ k. take k q.buffer) n ∙ parts.0, parts.1)
