-- ===== src/Messages/Fetch.antt =====
-- user32_fetch_queued_message (src/msvcrt/user32_message_queue.c) over its three sources.
use my_wine.Prelude.{
  ◌≡◌, refl, ap, sym, ◌∙◌, arith, inl, inr, ◌⊎◌, Bool, true, false, not, Bool-cases, List, [], ◌∷◌,
  ◌++◌, map, Option, none, some, if◌then◌else◌, if_ends,
}
use mathlib.Core.List.{append-nil, append_assoc}
use my_wine.Handles.{Table}
use my_wine.Messages.{Msg, Filter, Queue, capacity, push, target_alive, matches_filter}
use my_wine.Messages.Fetching.{State, Answer, no_event, fetch_host, fetch_queued_message}
use my_wine.Messages.Ring.{contents, IsRing, keep}
use my_wine.Messages.Take.{contents-push, pick, take_matching_refines, take_spec_found}

abbrev messages : List (Answer × Msg) → List Msg
messages = map (λ e. e.1)

-- What the rounds of the loop before its last one leave: the queue has all the live messages that
-- the host gave, and none of these matches.
pub record Passed (t : Table) (f : Filter) (q : Queue) (seen : List (Answer × Msg)) (q' : Queue)
    : Type 0 where
  pub ring : IsRing q'
  pub held : contents q' ≡ contents q ++ keep (target_alive t) (messages seen)
  pub missed : keep (matches_filter t f) (keep (target_alive t) (messages seen)) ≡ []

-- The last round: there is no event, a live match is handed out and kept unless it is removed, or a
-- live message finds the queue full, and is lost.
pub data Ending (t : Table) (f : Filter) (blocking remove : Bool) (q : Queue) (answer : Answer)
    (msg : Msg) (found : Option Msg) (q' : Queue) : Type 0 where
  nothing :
      no_event blocking answer msg ≡ true
      → found ≡ none
      → q' ≡ q
      → Ending t f blocking remove q answer msg found q'
  handed :
      target_alive t msg ≡ true
      → matches_filter t f msg ≡ true
      → found ≡ some msg
      → IsRing q'
      → contents q' ≡ contents q ++ (if remove then [] else msg ∷ [])
      → Ending t f blocking remove q answer msg found q'
  lost :
      target_alive t msg ≡ true
      → (matches_filter t f msg ≡ false) ⊎ (remove ≡ false)
      → q.count ≡ capacity
      → found ≡ none
      → q' ≡ q
      → Ending t f blocking remove q answer msg found q'

-- What is said of a fetch from the host.
pub record Keeps (t : Table) (f : Filter) (blocking remove : Bool) (q : Queue)
    (events : List (Answer × Msg)) (found : Option Msg) (q' : Queue) (left : List (Answer × Msg))
    : Type 0 where
  pub seen : List (Answer × Msg)
  pub reply : Answer
  pub last : Msg
  pub before : Queue
  pub taken : events ≡ seen ++ (reply, last) ∷ left
  pub passed : Passed t f q seen before
  pub ending : Ending t f blocking remove before reply last found q'

module _ (t : Table) (f : Filter) (blocking remove : Bool) (q : Queue) (answer : Answer)
    (incoming : Msg) (found : Option Msg) (q' : Queue) where
  -- The loop ends in its first round.
  Keeps-first :
      (left : List (Answer × Msg))
      → IsRing q
      → Ending t f blocking remove q answer incoming found q'
      → Keeps t f blocking remove q ((answer, incoming) ∷ left) found q' left
  Keeps-first left ring ends = record {
    seen = [];
    reply = answer;
    last = incoming;
    before = q;
    taken = refl;
    passed = record { ring = ring; held = sym (append-nil (contents q)); missed = refl };
    ending = ends;
  }

  -- A message to a dead window goes.
  Keeps-dead :
      (events left : List (Answer × Msg))
      → target_alive t incoming ≡ false
      → Keeps t f blocking remove q events found q' left
      → Keeps t f blocking remove q ((answer, incoming) ∷ events) found q' left
  Keeps-dead events left dead k = record {
    seen = (answer, incoming) ∷ k.seen;
    reply = k.reply;
    last = k.last;
    before = k.before;
    taken = ap (λ l. (answer, incoming) ∷ l) k.taken;
    passed = record {
      ring = k.passed.ring;
      held = rw dead k.passed.held;
      missed = rw dead k.passed.missed;
    };
    ending = k.ending;
  }

  -- A live message that is queued comes in front of those that follow.
  Keeps-queued :
      (q₁ : Queue) (events left : List (Answer × Msg))
      → target_alive t incoming ≡ true
      → matches_filter t f incoming ≡ false
      → contents q₁ ≡ contents q ++ incoming ∷ []
      → Keeps t f blocking remove q₁ events found q' left
      → Keeps t f blocking remove q ((answer, incoming) ∷ events) found q' left
  Keeps-queued q₁ events left lives miss added k = record {
    seen = (answer, incoming) ∷ k.seen;
    reply = k.reply;
    last = k.last;
    before = k.before;
    taken = ap (λ l. (answer, incoming) ∷ l) k.taken;
    passed = record {
      ring = k.passed.ring;
      held = rw lives (
          k.passed.held
          ∙ ap (λ l. l ++ keep (target_alive t) (messages k.seen)) added
          ∙ append_assoc (contents q) (incoming ∷ []) (keep (target_alive t) (messages k.seen)));
      missed = rw (lives, miss) k.passed.missed;
    };
    ending = k.ending;
  }

-- The last round on a live match.
fetch_hit :
    (t : Table) (f : Filter) (blocking remove : Bool) (q : Queue) (answer : Answer) (incoming : Msg)
    (events : List (Answer × Msg)) (found : Option Msg) (q' : Queue) (left : List (Answer × Msg))
    → IsRing q
    → no_event blocking answer incoming ≡ false
    → target_alive t incoming ≡ true
    → matches_filter t f incoming ≡ true
    → fetch_host t f blocking remove q ((answer, incoming) ∷ events) ≡ some (found, q', left)
    → Ending t f blocking remove q answer incoming found q' × (events ≡ left)
unfolding fetch_host
fetch_hit t f blocking true q answer incoming events found q' left ring goes lives hit e =
    let same : (found ≡ some incoming) × (q' ≡ q) × (events ≡ left) = ground arith in
    (
      handed lives hit same.0 (rw same.1 ring) (ap contents same.1 ∙ sym (append-nil (contents q))),
      same.2,
    )
fetch_hit t f blocking false q answer incoming events found q' left ring goes lives hit e =
    elim (contents-push q incoming ring) [
      | inl (n, full) ↦
          let same : (found ≡ none) × (q' ≡ q) × (events ≡ left) = ground (arith, full) in
          (lost lives (inr refl) n same.0 same.1, same.2)
      | inr (n, ok, added, ring') ↦
          let same : (found ≡ some incoming) × (q' ≡ (push q incoming).1) × (events ≡ left) =
            ground (arith, ok) in
          (handed lives hit same.0 (rw same.1 ring') (ap contents same.1 ∙ added), same.2)
    ]

-- If the loop over the host's events ends, with a well-formed translated queue, the queue was first
-- given, in order, every live message of the events before the last one taken, none of which
-- matches, and then one of three things happened: there was no event, and there is no message; a
-- live match was handed out, and queued too unless it was to be removed; or a live message that was
-- to be queued found 64 messages there, and is lost, with no message handed out.
pub fetch_host-Keeps :
    (t : Table) (f : Filter) (blocking remove : Bool) (q : Queue) (events : List (Answer × Msg))
    (found : Option Msg) (q' : Queue) (left : List (Answer × Msg))
    → IsRing q
    → fetch_host t f blocking remove q events ≡ some (found, q', left)
    → Keeps t f blocking remove q events found q' left
unfolding fetch_host
fetch_host-Keeps t f blocking remove q [] found q' left ring e = absurd (ground arith)
fetch_host-Keeps t f blocking remove q ((answer, incoming) ∷ events) found q' left ring e =
    let first = Keeps-first t f blocking remove q answer incoming found q' left ring in
    let close : events ≡ left
        → Ending t f blocking remove q answer incoming found q'
        → Keeps t f blocking remove q ((answer, incoming) ∷ events) found q' left =
      λ all ends. rw all (first ends) in
    elim (Bool-cases (no_event blocking answer incoming)) [
      | inl ended ↦
          let same : (found ≡ none) × (q' ≡ q) × (events ≡ left) = ground arith in
          close same.2 (nothing ended same.0 same.1)
      | inr goes ↦ elim (Bool-cases (target_alive t incoming)) [
        | inr dead ↦
            Keeps-dead t f blocking remove q answer incoming found q' events left dead
              (fetch_host-Keeps t f blocking remove q events found q' left ring (ground arith))
        | inl lives ↦ elim (Bool-cases (matches_filter t f incoming)) [
          | inl hit ↦
              let r =
                fetch_hit t f blocking remove q answer incoming events found q' left ring goes lives
                  hit e in
              close r.1 r.0
          | inr miss ↦ elim (contents-push q incoming ring) [
            | inl (n, full) ↦
                let same : (found ≡ none) × (q' ≡ q) × (events ≡ left) = ground (arith, full) in
                close same.2 (lost lives (inl miss) n same.0 same.1)
            | inr (n, ok, added, ring') ↦
                Keeps-queued t f blocking remove q answer incoming found q' (push q incoming).1
                  events left lives miss added
                  (fetch_host-Keeps t f blocking remove (push q incoming).1 events found q' left
                    ring' (ground (arith, ok)))
          ]
        ]
      ]
    ]

-- The loop over the host's events ends, with or without a message, on every list of events that
-- holds an answer that there is none.
pub fetch_host_ends :
    (t : Table) (f : Filter) (blocking remove : Bool) (q : Queue) (events : List (Answer × Msg))
    (answer : Answer) (last : Msg) (more : List (Answer × Msg))
    → no_event blocking answer last ≡ true
    → (r : Option Msg × Queue × List (Answer × Msg)) × (fetch_host t f blocking remove q
          (events ++ (answer, last) ∷ more)
        ≡ some r)
unfolding fetch_host
fetch_host_ends t f blocking remove q [] answer last more ended = ((none, q, more), rw ended)
fetch_host_ends t f blocking remove q ((a, m) ∷ events) answer last more ended =
    let left = events ++ (answer, last) ∷ more in
    let skip = fetch_host_ends t f blocking remove q events answer last more ended in
    let queue = fetch_host_ends t f blocking remove (push q m).1 events answer last more ended in
    if_ends (no_event blocking a m) ((none, q, left), refl)
      (if_ends (not (target_alive t m)) skip (
        if_ends (matches_filter t f m)
          (if_ends remove ((some m, q, left), refl)
            (if_ends (push q m).0 ((some m, (push q m).1, left), refl) ((none, q, left), refl)))
          (if_ends (push q m).0 queue ((none, q, left), refl))))

-- The posted queue comes first, oldest message first: if it is well formed and a live posted
-- message matches the filter, a fetch that removes hands out the first of them, takes it off the
-- posted queue, drops the dead ones from it, and touches neither the translated queue nor the
-- host.
pub fetch_posted :
    (t : Table) (f : Filter) (blocking : Bool) (s : State) (events : List (Answer × Msg))
    (msg : Msg) (rest : List Msg)
    → IsRing s.posted
    → pick (matches_filter t f) (keep (target_alive t) (contents s.posted)) ≡ some (msg, rest)
    → (posted : Queue) × (fetch_queued_message t f blocking true s events
        ≡ some (some msg, record s { posted = posted }, events))
      × IsRing posted
      × (contents posted ≡ rest)
unfolding fetch_queued_message
fetch_posted t f blocking s events msg rest ring found =
    let r = take_matching_refines t f true s.posted ring in
    let spec = take_spec_found t f (contents s.posted) msg rest found in
    (r.0, ground (arith, r.1, spec), r.2, ground (arith, r.3, spec))
