-- ===== src/Messages/Take.antt =====
-- Taking a message from a queue, against the list that the queue holds.
use my_wine.Prelude.{
  ℕ, zero, suc, ◌+◌, ◌-◌, ◌%◌, ◌<◌, ◌≡◌, ◌≢◌, refl, sym, ap, ◌∙◌, arith, inl, inr, ◌⊎◌, Bool, true,
  false, Bool-cases, Option-cases, List, [], ◌∷◌, ◌++◌, Option, none, some, length-set, ◌==◌, leb,
  if◌then◌else◌,
}
use mathlib.Core.Path.{ap₂}
use mathlib.Core.Option
use my_wine.Handles.{Table}
use my_wine.Messages.{
  Msg, Filter, Queue, capacity, read, push, find_matching, take_at, discard_dead_targets,
  take_matching, target_alive, matches_filter,
}
use my_wine.Messages.Ring.{
  window, contents, IsRing, window_cong, window-add, window-set_end, keep, compact-window,
  first_offset, find_from-window,
}
use my_wine.Messages.Ring.Shift.{moved, length-moved, shift-moved, moved_outside, window-moved}

-- On a well-formed ring, user32_queue_push refuses a message exactly when 64 are queued, changing
-- nothing, and otherwise appends it to the messages that the ring holds and keeps the ring well
-- formed.
pub contents-push :
    (q : Queue) (msg : Msg)
    → IsRing q
    → ((q.count ≡ capacity) × (push q msg ≡ (false, q)))
      ⊎ ((q.count < capacity)
          × ((push q msg).0 ≡ true)
          × (contents (push q msg).1 ≡ contents q ++ msg ∷ [])
          × IsRing (push q msg).1)
unfolding push
contents-push q msg ring = elim (Bool-cases (leb capacity q.count)) [
  | inl full ↦ inl (ground arith, rw full)
  | inr room ↦ inr (
    ground arith,
    rw room,
    rw room (window-set_end q.buf q.head q.count msg ring.size (ground arith)),
    rw room (record { size = length-set q.buf _ msg ∙ ring.size; bound = ground arith }),
  )
]

-- The first message that a test takes, and the list without it.
unfoldable pub pick : (Msg → Bool) → List Msg → Option (Msg × List Msg)
pick p [] = none
pick p (x ∷ xs) = if p x then some (x, xs) else Option.map (λ r. (r.0, x ∷ r.1)) (pick p xs)

pick-none : (p : Msg → Bool) (l : List Msg) → first_offset p l ≡ none → pick p l ≡ none
unfolding pick
pick-none p [] e = refl
pick-none p (x ∷ xs) e = elim (Bool-cases (p x)) [
  | inl hit ↦ absurd (ground arith)
  | inr miss ↦ rw (miss, pick-none p xs (ground arith))
]

map-suc_ne_zero : (o : Option ℕ) → Option.map suc o ≢ some 0
map-suc_ne_zero none e = cc
map-suc_ne_zero (some k) e = ground arith

map-suc-some : (o : Option ℕ) (k : ℕ) → Option.map suc o ≡ some (suc k) → o ≡ some k
map-suc-some none k e = absurd (ground arith)
map-suc-some (some j) k e = ground arith

pick-window :
    (p : Msg → Bool) (buf : List Msg) (h n k : ℕ)
    → first_offset p (window buf h n) ≡ some k
    → (k < n)
      × (pick p (window buf h n)
          ≡ some
              (read buf ((h + k) % capacity), window buf h k ++ window buf (h + k + 1) (n - k - 1)))
unfolding pick
pick-window p buf h zero k e = absurd (ground arith)
pick-window p buf h (suc n) zero e = elim (Bool-cases (p (read buf (h % capacity)))) [
  | inl hit ↦
      let here : h ≡ h + 0 = omega arith in
      let left : n ≡ suc n - 0 - 1 = omega arith in
      (
        omega arith,
        rw hit (ap₂ (λ a b. some (read buf (a % capacity), window buf (a + 1) b)) here left),
      )
  | inr miss ↦ absurd (map-suc_ne_zero (first_offset p (window buf (h + 1) n)) (rw miss at e))
]
pick-window p buf h (suc n) (suc k) e = elim (Bool-cases (p (read buf (h % capacity)))) [
  | inl hit ↦ absurd (ground arith)
  | inr miss ↦
      let ih =
        pick-window p buf (h + 1) n k
          (map-suc-some (first_offset p (window buf (h + 1) n)) k (rw miss at e)) in
      let here : h + 1 + k ≡ h + suc k = omega arith in
      let left : n - k - 1 ≡ suc n - suc k - 1 = omega arith in
      (
        omega (arith, ih.0),
        rw (miss, ih.1)
            (ap₂
              (λ a b. some (
                read buf (a % capacity),
                read buf (h % capacity) ∷ (window buf (h + 1) k ++ window buf (a + 1) b),
              ))
              here left),
      )
]

-- The specification: the first match comes out, of the messages that are not to dead windows.
pub taken : (Msg → Bool) → Bool → List Msg → Option Msg × List Msg
taken p remove l = elim (pick p l) [
  | none ↦ (none, l)
  | some (msg, rest) ↦ (some msg, if remove then rest else l)
]

taken-none :
    (p : Msg → Bool) (remove : Bool) (l : List Msg) → pick p l ≡ none → taken p remove l ≡ (none, l)
unfolding taken
taken-none p remove l e = ground (arith, e)

taken-some :
    (p : Msg → Bool) (remove : Bool) (l : List Msg) (msg : Msg) (rest : List Msg)
    → pick p l ≡ some (msg, rest)
    → taken p remove l ≡ (some msg, if remove then rest else l)
unfolding taken
taken-some p remove l msg rest e = ground (arith, e)

pub take_spec : Table → Filter → Bool → List Msg → Option Msg × List Msg
take_spec t f remove l = taken (matches_filter t f) remove (keep (target_alive t) l)

-- What user32_queue_take_at does with the place that the search found.
take_at-some :
    (q : Queue) (k : ℕ) (remove : Bool)
    → IsRing q
    → k < q.count
    → (q' : Queue) × (take_at q (some ((q.head + k) % capacity)) remove
        ≡ some (some (read q.buf ((q.head + k) % capacity)), q'))
      × IsRing q'
      × (contents q' ≡ (
          if remove
          then window q.buf q.head k ++ window q.buf (q.head + k + 1) (q.count - k - 1)
          else contents q))
unfolding take_at
take_at-some q k false ring inside = (q, ground arith, ring, refl)
take_at-some q k true ring inside =
    let r = q.count - k - 1 in
    let buf' = moved r (q.head + k) q.buf in
    let q' : Queue = record q { buf = buf'; count = q.count - 1 } in
    let last : (q.head + k + r) % capacity ≡ (q.head + q.count - 1) % capacity = omega arith in
    let closes =
      shift-moved r capacity (q.head + k) q.buf (omega (arith, ring.bound))
        (omega (arith, ring.bound)) in
    let split : q.count - 1 ≡ k + r = omega arith in
    (
      q',
      ground (arith, closes, last),
      record {
        size = length-moved r (q.head + k) q.buf ∙ ring.size;
        bound = omega (arith, ring.bound);
      },
      ap (window buf' q.head) split
          ∙ window-add buf' q.head k r
          ∙ ap₂ ◌++◌
              (window_cong buf' q.buf q.head k
                (λ d h. moved_outside r (q.head + k) _ q.buf (λ d' h'. omega (arith, ring.bound))))
              (window-moved r (q.head + k) q.buf ring.size (omega (arith, ring.bound))),
    )

-- On a well-formed ring, user32_queue_discard_dead_targets leaves the messages that the test
-- keeps, in order, and keeps the ring well formed.
pub contents-discard_dead_targets :
    (alive : Msg → Bool) (q : Queue)
    → IsRing q
    → IsRing (discard_dead_targets alive q)
      × (contents (discard_dead_targets alive q) ≡ keep alive (contents q))
unfolding discard_dead_targets
contents-discard_dead_targets alive q ring =
    let done =
      compact-window alive q.head q.count 0 0 q.buf ring.size (omega arith)
        (omega (arith, ring.bound)) in
    let start : q.head + 0 ≡ q.head = omega arith in
    elim (Bool-cases (q.count == 0)) [
      | inl empty ↦
          let none : q.count ≡ 0 = ground arith in
          rw empty (
            ring,
            ap (window q.buf q.head) none ∙ ap (λ n. keep alive (window q.buf q.head n)) (sym none),
          )
      | inr more ↦ rw more (
        record { size = done.0; bound = omega (arith, done.1, ring.bound) },
        done.2 ∙ ap (λ j. keep alive (window q.buf j q.count)) start,
      )
    ]

pub take_spec_found :
    (t : Table) (f : Filter) (l : List Msg) (msg : Msg) (rest : List Msg)
    → pick (matches_filter t f) (keep (target_alive t) l) ≡ some (msg, rest)
    → take_spec t f true l ≡ (some msg, rest)
unfolding take_spec
take_spec_found t f l msg rest e =
    taken-some (matches_filter t f) true (keep (target_alive t) l) msg rest e

take_found :
    (p : Msg → Bool) (remove : Bool) (q : Queue)
    → IsRing q
    → (q' : Queue) × (take_at q (find_matching p q) remove
        ≡ some ((taken p remove (contents q)).0, q'))
      × IsRing q'
      × (contents q' ≡ (taken p remove (contents q)).1)
unfolding find_matching take_at
take_found p remove q ring =
    let start : q.head + 0 ≡ q.head = omega arith in
    let search =
      find_from-window p q.buf q.head q.count 0
      ∙ ap (λ j. Option.map (λ k. (j + k) % capacity) (first_offset p (window q.buf j q.count)))
          start in
    elim (Option-cases (first_offset p (contents q))) [
      | inl missing ↦
          let nothing = taken-none p remove (contents q) (pick-none p (contents q) missing) in
          rw (search, missing, nothing) (q, refl, ring, refl)
      | inr (k, hit) ↦
          let got = pick-window p q.buf q.head q.count k hit in
          let out = take_at-some q k remove ring got.0 in
          rw (search, hit, taken-some p remove (contents q) _ _ got.1) (out.0, out.1, out.2, out.3)
    ]

-- Taking a message from a well-formed queue always comes to its end. It discards the messages to
-- dead windows, hands out the first of the others that matches the filter, and removes it when asked
-- to, as the specification does on the list of the queue's messages; the queue stays well formed.
pub take_matching_refines :
    (t : Table) (f : Filter) (remove : Bool) (q : Queue)
    → IsRing q
    → (q' : Queue) × (take_matching t f remove q ≡ some ((take_spec t f remove (contents q)).0, q'))
      × IsRing q'
      × (contents q' ≡ (take_spec t f remove (contents q)).1)
unfolding take_matching take_spec
take_matching_refines t f remove q ring =
    let d = contents-discard_dead_targets (target_alive t) q ring in
    rw (← d.1)
      (take_found (matches_filter t f) remove (discard_dead_targets (target_alive t) q) d.0)
