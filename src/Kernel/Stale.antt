-- ===== src/Kernel/Stale.antt =====
-- handler_NtClose (src/msvcrt/ntdll_handle.c) on an event, and the search of find_event
-- afterwards.
use my_wine.Prelude.{
  ℕ, ◌+◌, ◌<◌, ◌≡◌, ◌≢◌, arith, some, List, length, set, get_or-set, get_or-set_ne,
}
use my_wine.Handles.{Table, alloc, handle_table_size, type_event, slot_at, empty_slot}
use my_wine.Handles
use my_wine.Handles.Laws.{alloc_hit}
use my_wine.Kernel.{
  Event, Kernel, Layout, success, low32, no_event, event_at, find_event, find_event_from,
  create_event, set_event,
}
use my_wine.Kernel.Close.{close}
use my_wine.Kernel.Invariant.{IsSane}
use my_wine.Kernel.Events.{
  create_event_ok, set_event_found, find_event_from_hit, find_event_from_first,
  find_event_from_before, new_event,
}

-- In a sane state, NtClose on the handle of an event, above the standard streams and with one
-- reference, frees the handle and leaves its entry in the event array: NtSetEvent still accepts
-- the closed handle.
pub set_event-close :
    (k : Kernel) (h slot : ℕ)
    → IsSane k
    → 2 < h
    → h < handle_table_size
    → Handles.get_type k.handles h ≡ type_event
    → (slot_at k.handles h).ref_count ≡ 1
    → find_event k h ≡ some slot
    → let k' = (close h k).2 in
      ((close h k).0 ≡ success)
      × (Handles.get_type k'.handles h ≡ 0)
      × ((set_event h k').0 ≡ success)
unfolding close Handles.free Handles.get_type set_event find_event
set_event-close k h slot sane low high kind one found =
    ground (arith, found, get_or-set k.handles h h empty_slot empty_slot, sane.table.size)

-- An entry written behind the ones that are searched first does not hide a hit among them.
search_behind :
    (n : ℕ) (es : List Event) (e : Event) (h slot : ℕ)
    → n < length es
    → find_event_from n 0 es h ≡ some slot
    → find_event_from (n + 1) 0 (set es n e) h ≡ some slot
search_behind n es e h slot room found =
    let hit = find_event_from_hit n 0 es h slot found in
    find_event_from_first (n + 1) 0 (set es n e) h slot (omega arith) (omega (arith, hit.1))
      (ground (arith, get_or-set es n slot e no_event, hit))
      (λ m lo hi. ground (
        arith,
        get_or-set es n m e no_event,
        hit,
        find_event_from_before n 0 es h slot m found (omega arith),
      ))

-- In a sane state, if an entry of the event array carries a number that NtCreateEvent hands out
-- again, the handle leads to that old entry: setting it reports the old entry's state, and the
-- entry that was created for it stays as it was initialised.
pub create_event-stale :
    (layout : Layout) (event_type initial_state h slot : ℕ) (k k' : Kernel)
    → IsSane k
    → find_event k h ≡ some slot
    → create_event layout event_type initial_state k ≡ (success, some h, k')
    → (slot ≢ k.event_count)
      × (find_event k' h ≡ some slot)
      × ((set_event h k').1 ≡ some (event_at k slot).signaled)
      × (event_at (set_event h k').2 k.event_count ≡ new_event event_type initial_state h)
unfolding find_event
create_event-stale layout event_type initial_state h slot k k' sane found e =
    let made = create_event_ok layout event_type initial_state h k k' e in
    let got = alloc_hit k.handles type_event (layout.event_address k.event_count) made.1 in
    let hit = find_event_from_hit k.event_count 0 k.events h slot found in
    let fresh = new_event event_type initial_state h in
    let small : low32 h ≡ h = omega (arith, made.2, got.1) in
    let room : k.event_count < length k.events = omega (arith, made.0, sane.events_size) in
    let again = search_behind k.event_count k.events fresh h slot room found in
    let kept = λ (m : ℕ). get_or-set k.events k.event_count m fresh no_event room in
    let written = record (event_at k' slot) { signaled = 1 } in
    let set = set_event_found h slot k' (ground (arith, small, again, made.3)) in
    (
      omega (arith, hit.1),
      ground (arith, again, made.3),
      ground (arith, set, made.3, kept slot, hit.1),
      ground (
        arith,
        set,
        made.3,
        kept k.event_count,
        get_or-set_ne k'.events slot k.event_count written no_event (omega (arith, hit.1)),
      ),
    )
