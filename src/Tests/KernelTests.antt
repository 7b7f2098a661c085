-- ===== src/Tests/KernelTests.antt =====
-- The NT handlers of src/msvcrt/ntdll_synchronization.c and ntdll_handle.c on small histories.
use my_wine.Prelude.{◌+◌, ◌≡◌, refl, arith, some, List, [], ◌∷◌}
use my_wine.Handles.{type_event, handle_table_size, slot_at}
use my_wine.Handles
use my_wine.Kernel.{
  Kernel, Layout, success, memory_not_available, find_event, find_event_from, event_at,
  create_event,
}
use my_wine.Kernel.Close.{close}
use my_wine.Kernel.Events.{create_event_finds, new_event}
use my_wine.Kernel.Invariant.{
  IsSane, start, start-IsSane, Call, creates_event, creates_mutex, creates_semaphore, sets,
  releases, closes, step, run, run-IsSane,
}

abbrev layout : Layout
layout = record {
  event_address = λ i. 4096 + i;
  mutex_address = λ i. 8192 + i;
  semaphore_address = λ i. 12288 + i;
}

-- A process with one synchronization event, of handle 3.
abbrev one_event : Kernel
one_event = run layout start (creates_event 1 0 ∷ [])

one_event-IsSane : IsSane one_event
one_event-IsSane = run-IsSane layout start (creates_event 1 0 ∷ []) start-IsSane

one_event_found : find_event one_event 3 ≡ some 0
unfolding run step start create_event Handles.alloc Handles.init Handles.find_free find_event
    find_event_from
one_event_found = refl

create_event_finds_example :
    (find_event (create_event layout 1 0 start).2 3 ≡ some start.event_count)
    × (event_at (create_event layout 1 0 start).2 start.event_count ≡ new_event 1 0 3)
    × (Handles.get_type (create_event layout 1 0 start).2.handles 3 ≡ type_event)
    × (Handles.get (create_event layout 1 0 start).2.handles 3
        ≡ layout.event_address start.event_count)
create_event_finds_example =
    create_event_finds layout 1 0 3 start (create_event layout 1 0 start).2 start-IsSane created
      (λ m h. absurd (omega (arith, empty, h)))
  where
    created : create_event layout 1 0 start ≡ (success, some 3, (create_event layout 1 0 start).2)
    created = unfold create_event Handles.alloc Handles.init Handles.find_free start in refl

    empty : start.event_count ≡ 0
    empty = unfold start in refl

-- No event fits any more.
abbrev full_kernel : Kernel
full_kernel = record one_event { event_count = 64 }

full_refuses : (create_event layout 1 0 full_kernel).0 ≡ memory_not_available
unfolding create_event
full_refuses = refl

abbrev history : List Call
history =
    creates_mutex ∷ creates_event 0 1 ∷ creates_semaphore 1 2 ∷ sets 4 ∷ releases 3 ∷ closes 4 ∷ []

run-IsSane_example : IsSane (run layout start history)
run-IsSane_example = run-IsSane layout start history start-IsSane

event_type_of_three : Handles.get_type one_event.handles 3 ≡ type_event
unfolding run step start create_event Handles.alloc Handles.init Handles.find_free Handles.get_type
event_type_of_three = refl

one_reference : (slot_at one_event.handles 3).ref_count ≡ 1
unfolding run step start create_event Handles.alloc Handles.init Handles.find_free
one_reference = refl

-- The event closed again: its handle is free, its entry is not.
abbrev closed_event : Kernel
closed_event = run layout start (creates_event 1 0 ∷ closes 3 ∷ [])

closed_event-IsSane : IsSane closed_event
closed_event-IsSane = run-IsSane layout start (creates_event 1 0 ∷ closes 3 ∷ []) start-IsSane

closed_event_found : find_event closed_event 3 ≡ some 0
unfolding run step start create_event Handles.alloc Handles.init Handles.find_free find_event
    find_event_from close Handles.get_type Handles.free
closed_event_found = refl

created_again :
    create_event layout 0 0 closed_event
    ≡ (success, some 3, (create_event layout 0 0 closed_event).2)
unfolding run step start create_event Handles.alloc Handles.init Handles.find_free close
    Handles.get_type Handles.free
created_again = refl
