-- ===== src/Kernel/Events.antt =====
-- Events by handle, of src/msvcrt/ntdll_synchronization.c and ntdll_objects.c: the search,
-- creation, setting and polling together.
use my_wine.Prelude.{
  ℕ, zero, suc, ◌+◌, ◌≤◌, ◌<◌, ◌≡◌, ◌≢◌, arith, inl, inr, Bool-cases, none, some, ◌==◌,
  if◌then◌else◌, List, length, get_or, set, get_or-set, length-set, ap, sym, ◌∙◌, refl,
}
use my_wine.Handles.{Table, alloc, handle_table_size, type_event, type_mutex, type_semaphore}
use my_wine.Handles
use my_wine.Handles.Laws.{alloc_hit, alloc-eq-zero, get-alloc}
use my_wine.Kernel.Invariant.{IsSane}
use my_wine.Kernel.Wait.{poll}
use my_wine.Kernel.{
  set_event, timeout, put_event, Event, Kernel, Layout, success, memory_not_available, low32,
  max_objects, no_event, event_at, find_event_from, find_event, create_event,
}

-- A hit of the search lies in its range and carries the handle; nothing before it does.
pub find_event_from_hit :
    (rounds i : ℕ) (es : List Event) (handle j : ℕ)
    → find_event_from rounds i es handle ≡ some j
    → (i ≤ j) × (j < i + rounds) × ((get_or es j no_event).handle ≡ handle)
unfolding find_event_from
find_event_from_hit zero i es handle j e = absurd (ground arith)
find_event_from_hit (suc rounds) i es handle j e =
    elim (Bool-cases ((get_or es i no_event).handle == handle)) [
      | inl here ↦ ground (arith, here, e)
      | inr past ↦
          let ih = find_event_from_hit rounds (i + 1) es handle j (ground (arith, past, e)) in
          (omega (arith, ih.0), omega (arith, ih.1), ih.2)
    ]

pub find_event_from_before :
    (rounds i : ℕ) (es : List Event) (handle j m : ℕ)
    → find_event_from rounds i es handle ≡ some j
    → i ≤ m
    → m < j
    → (get_or es m no_event).handle ≢ handle
unfolding find_event_from
find_event_from_before zero i es handle j m e lo hi = absurd (ground arith)
find_event_from_before (suc rounds) i es handle j m e lo hi =
    elim (Bool-cases ((get_or es i no_event).handle == handle)) [
      | inl here ↦ absurd (ground arith)
      | inr past ↦ elim (Bool-cases (i == m)) [
        | inl same ↦ ground arith
        | inr other ↦
            find_event_from_before rounds (i + 1) es handle j m (ground arith) (ground arith) hi
      ]
    ]

-- The search finds an index if nothing before it carries the handle.
pub find_event_from_first :
    (rounds i : ℕ) (es : List Event) (handle j : ℕ)
    → i ≤ j
    → j < i + rounds
    → (get_or es j no_event).handle ≡ handle
    → ((m : ℕ) → i ≤ m → m < j → (get_or es m no_event).handle ≢ handle)
    → find_event_from rounds i es handle ≡ some j
unfolding find_event_from
find_event_from_first zero i es handle j a b here before = absurd (omega arith)
find_event_from_first (suc rounds) i es handle j a b here before = elim (Bool-cases (i == j)) [
  | inl same ↦ ground arith
  | inr other ↦
      let rest =
        find_event_from_first rounds (i + 1) es handle j (ground arith) (omega arith) here
          (λ m lo hi. before m (omega arith) hi) in
      ground (arith, rest, before i (omega arith))
]

-- If NtCreateEvent does not succeed, it answers STATUS_MEMORY_NOT_AVAILABLE, changes nothing and
-- hands out no handle.
pub create_event_fails :
    (layout : Layout) (event_type initial_state : ℕ) (k : Kernel)
    → (create_event layout event_type initial_state k).0 ≢ success
    → create_event layout event_type initial_state k ≡ (memory_not_available, none, k)
unfolding create_event
create_event_fails layout event_type initial_state k bad =
    let address = layout.event_address k.event_count in
    elim (Bool-cases ((alloc type_event address k.handles).0 == 0)) [
      | inl full ↦
          let same = (alloc-eq-zero k.handles type_event address).0 (ground arith) in
          ground (arith, full, same.0)
      | inr hit ↦
          let got = alloc_hit k.handles type_event address (ground arith) in
          ground (arith, hit, got.1)
    ]

-- What a successful creation did.
abbrev pub new_event : ℕ → ℕ → ℕ → Event
new_event event_type initial_state h = record {
  handle = h;
  signaled = if initial_state == 0 then 0 else 1;
  event_type = low32 event_type;
}

pub create_event_ok :
    (layout : Layout) (event_type initial_state h : ℕ) (k k' : Kernel)
    → create_event layout event_type initial_state k ≡ (success, some h, k')
    → let got = alloc type_event (layout.event_address k.event_count) k.handles in
      (k.event_count < max_objects)
      × (got.0 ≢ 0)
      × (h ≡ got.0)
      × (k' ≡ record k {
        handles = got.1;
        event_count = k.event_count + 1;
        events = set k.events k.event_count (new_event event_type initial_state h);
      })
unfolding create_event
create_event_ok layout event_type initial_state h k k' e =
    let address = layout.event_address k.event_count in
    elim (Bool-cases ((alloc type_event address k.handles).0 == 0)) [
      | inl full ↦ absurd (ground (arith, full, e))
      | inr hit ↦
          let got = alloc_hit k.handles type_event address (ground arith) in
          ground (arith, hit, got.1, e)
    ]

-- In a sane state, an event that NtCreateEvent created is found under its handle if no older event
-- carries that number: in the next slot, with the type and state asked for, and the handle table
-- leads to it.
pub create_event_finds :
    (layout : Layout) (event_type initial_state h : ℕ) (k k' : Kernel)
    → IsSane k
    → create_event layout event_type initial_state k ≡ (success, some h, k')
    → ((m : ℕ) → m < k.event_count → (event_at k m).handle ≢ h)
    → (find_event k' h ≡ some k.event_count)
      × (event_at k' k.event_count ≡ new_event event_type initial_state h)
      × (Handles.get_type k'.handles h ≡ type_event)
      × (Handles.get k'.handles h ≡ layout.event_address k.event_count)
unfolding find_event
create_event_finds layout event_type initial_state h k k' sane e new =
    let made = create_event_ok layout event_type initial_state h k k' e in
    let got =
      get-alloc k.handles type_event (layout.event_address k.event_count) sane.table made.1 in
    let stored = λ (m : ℕ).
      get_or-set k.events k.event_count m (new_event event_type initial_state h) no_event
        (omega (arith, made.0, sane.events_size)) in
    rw made.3 (
      find_event_from_first (k.event_count + 1) 0 _ h k.event_count (omega arith) (omega arith)
          (ground (arith, stored k.event_count)) (λ m lo hi. ground (arith, stored m, new m hi)),
      ground (arith, stored k.event_count),
      ground (arith, made.2, got.4),
      ground (arith, made.2, got.3),
    )

pub event_at-put_event :
    (k : Kernel) (slot : ℕ) (e : Event)
    → slot < length k.events
    → event_at (put_event k slot e) slot ≡ e
event_at-put_event k slot e inside = ground (arith, get_or-set k.events slot slot e no_event)

-- Two looks at a signalled event: type 1 is consumed by the first.
poll_signaled :
    (k : Kernel) (slot : ℕ)
    → slot < length k.events
    → (event_at k slot).signaled ≡ 1
    → ((poll slot k).0 ≡ success)
      × ((event_at k slot).event_type ≡ 1 → (poll slot (poll slot k).1).0 ≡ timeout)
      × ((event_at k slot).event_type ≢ 1 → poll slot k ≡ (success, k))
unfolding poll
poll_signaled k slot inside on =
    let stored = event_at-put_event k slot (record (event_at k slot) { signaled = 0 }) inside in
    (ground arith, λ auto. ground (arith, stored), λ manual. ground arith)

pub set_event_found :
    (handle slot : ℕ) (k : Kernel)
    → find_event k (low32 handle) ≡ some slot
    → set_event handle k ≡ (
      success,
      some (event_at k slot).signaled,
      put_event k slot (record (event_at k slot) { signaled = 1 }),
    )
unfolding set_event
set_event_found handle slot k found = ground (arith, found)

-- Setting an event that is found, at a slot of the array, releases a wait that looks at it; a
-- synchronization event, of type 1, only the first one, so that the next look times out, while a
-- look at any other succeeds and changes nothing.
pub poll-set_event :
    (handle slot : ℕ) (k : Kernel)
    → find_event k (low32 handle) ≡ some slot
    → slot < length k.events
    → let k₁ = (set_event handle k).2 in
      ((set_event handle k).0 ≡ success)
      × ((poll slot k₁).0 ≡ success)
      × ((event_at k slot).event_type ≡ 1 → (poll slot (poll slot k₁).1).0 ≡ timeout)
      × ((event_at k slot).event_type ≢ 1 → poll slot k₁ ≡ (success, k₁))
poll-set_event handle slot k found inside =
    let e : Event = record (event_at k slot) { signaled = 1 } in
    let stored = event_at-put_event k slot e inside in
    let looks =
      poll_signaled (put_event k slot e) slot (omega (arith, length-set k.events slot e))
        (ap (λ v. v.signaled) stored) in
    rw (set_event_found handle slot k found) (
      refl,
      looks.0,
      λ auto. looks.1 (ap (λ v. v.event_type) stored ∙ auto),
      λ manual. looks.2 (λ x. manual (sym (ap (λ v. v.event_type) stored) ∙ x)),
    )
