-- ===== src/Kernel/Invariant.antt =====
-- What every handler keeps of the kernel objects, and what follows for any history of calls.
use my_wine.Prelude.{
  ℕ, ◌≤◌, ◌≡◌, refl, arith, inl, inr, Bool-cases, Option-cases, leb, ltb, ◌==◌, if◌then◌else◌, List,
  [], ◌∷◌, length, get_or-set, get_or-replicate, replicate, length-set, ◌∙◌, ap,
}
use my_wine.Handles.{Table, alloc, handle_table_size, type_event, type_mutex, type_semaphore}
use my_wine.Handles
use my_wine.Handles.Invariant.{IsValid, init-IsValid, alloc-IsValid, free-IsValid}
use my_wine.Kernel.{
  Event, Mutex, Kernel, Layout, invalid_handle, low32, max_objects, no_event, no_mutex,
  no_semaphore, event_at, mutex_at, put_event, create_event, create_mutex, create_semaphore,
  set_event, reset_event, find_event, find_mutex, release_mutex, write_signaled,
}
use my_wine.Kernel.Close.{close}
use my_wine.Kernel.Wait.{consume}

-- The kernel objects with room for all that the counts allow, on a valid handle table.
pub record IsSane (k : Kernel) : Type 0 where
  pub table : IsValid k.handles
  pub events_size : length k.events ≡ max_objects
  pub events_count : k.event_count ≤ max_objects
  pub mutexes_size : length k.mutexes ≡ max_objects
  pub mutexes_count : k.mutex_count ≤ max_objects
  pub semaphores_size : length k.semaphores ≡ max_objects
  pub semaphores_count : k.semaphore_count ≤ max_objects
  pub unlocked : (i : ℕ) → (mutex_at k i).locked ≡ 0

-- The zeroed arrays of a fresh process.
unfoldable pub start : Kernel
start = record {
  handles = Handles.init;
  events = replicate 64 no_event;
  event_count = 0;
  mutexes = replicate 64 no_mutex;
  mutex_count = 0;
  semaphores = replicate 64 no_semaphore;
  semaphore_count = 0;
  sections = λ p. record { base = 0; size = 0 };
}

start_unlocked : (i : ℕ) → (mutex_at start i).locked ≡ 0
unfolding start
start_unlocked i = ap (λ m. m.locked) (get_or-replicate 64 i no_mutex)

pub start-IsSane : IsSane start
unfolding start
start-IsSane = record {
  table = init-IsValid;
  events_size = refl;
  events_count = omega arith;
  mutexes_size = refl;
  mutexes_count = omega arith;
  semaphores_size = refl;
  semaphores_count = omega arith;
  unlocked = start_unlocked;
}

module _ (layout : Layout) where
  create_event-IsSane :
      (event_type initial_state : ℕ) (k : Kernel)
      → IsSane k
      → IsSane (create_event layout event_type initial_state k).2
  unfolding create_event
  create_event-IsSane event_type initial_state k sane = ground (
    arith,
    alloc-IsValid k.handles type_event (layout.event_address k.event_count) sane.table,
    length-set k.events k.event_count (record {
      handle = low32 (alloc type_event (layout.event_address k.event_count) k.handles).0;
      signaled = if initial_state == 0 then 0 else 1;
      event_type = low32 event_type;
    }),
  )

  create_mutex-IsSane : (k : Kernel) → IsSane k → IsSane (create_mutex layout k).2
  unfolding create_mutex
  create_mutex-IsSane k sane =
      let (h, handles') = alloc type_mutex (layout.mutex_address k.mutex_count) k.handles in
      let fresh : Mutex = record { handle = low32 h; locked = 0 } in
      let table =
        alloc-IsValid k.handles type_mutex (layout.mutex_address k.mutex_count) sane.table in
      elim (Bool-cases (leb max_objects k.mutex_count)) [
        | inl full ↦ rw full sane
        | inr room ↦ elim (Bool-cases (low32 h == 0)) [
          | inl failed ↦ rw (room, failed) (ground (arith, table))
          | inr done ↦
              rw (room, done)
                (record {
                  table = table;
                  events_size = sane.events_size;
                  events_count = sane.events_count;
                  mutexes_size = length-set k.mutexes k.mutex_count fresh ∙ sane.mutexes_size;
                  mutexes_count = ground arith;
                  semaphores_size = sane.semaphores_size;
                  semaphores_count = sane.semaphores_count;
                  unlocked = λ i. ground (
                    arith,
                    get_or-set k.mutexes k.mutex_count i fresh no_mutex,
                    sane.mutexes_size,
                    sane.unlocked i,
                  );
                })
        ]
      ]

  create_semaphore-IsSane :
      (initial_count maximum_count : ℕ) (k : Kernel)
      → IsSane k
      → IsSane (create_semaphore layout initial_count maximum_count k).2
  unfolding create_semaphore
  create_semaphore-IsSane initial_count maximum_count k sane = ground (
    arith,
    alloc-IsValid k.handles type_semaphore (layout.semaphore_address k.semaphore_count) sane.table,
    length-set k.semaphores k.semaphore_count (record {
      handle =
          low32 (alloc type_semaphore (layout.semaphore_address k.semaphore_count) k.handles).0;
      count = low32 (if ltb maximum_count initial_count then maximum_count else initial_count);
      max_count = low32 maximum_count;
    }),
  )

put_event-IsSane : (k : Kernel) (i : ℕ) (e : Event) → IsSane k → IsSane (put_event k i e)
put_event-IsSane k i e sane = ground (arith, length-set k.events i e)

write_signaled-IsSane :
    (value handle : ℕ) (k : Kernel) → IsSane k → IsSane (write_signaled value handle k).2
unfolding write_signaled
write_signaled-IsSane value handle k sane = elim (Option-cases (find_event k (low32 handle))) [
  | inl missing ↦ rw (missing, write_signaled) sane
  | inr (i, e) ↦
      rw (e, write_signaled)
        (put_event-IsSane k i (record (event_at k i) { signaled = value }) sane)
]

set_event-IsSane : (handle : ℕ) (k : Kernel) → IsSane k → IsSane (set_event handle k).2
unfolding set_event
set_event-IsSane handle k sane = write_signaled-IsSane 1 handle k sane

reset_event-IsSane : (handle : ℕ) (k : Kernel) → IsSane k → IsSane (reset_event handle k).2
unfolding reset_event
reset_event-IsSane handle k sane = write_signaled-IsSane 0 handle k sane

consume-IsSane : (slot : ℕ) (k : Kernel) → IsSane k → IsSane (consume slot k)
unfolding consume
consume-IsSane slot k sane =
    ground (arith, put_event-IsSane k slot (record (event_at k slot) { signaled = 0 }) sane)

-- Only a hit of the search would unlock a mutex, and no mutex is ever locked.
pub release_mutex-IsSane :
    (handle : ℕ) (k : Kernel) → IsSane k → release_mutex handle k ≡ (invalid_handle, k)
unfolding release_mutex
release_mutex-IsSane handle k sane = elim (Option-cases (find_mutex k (low32 handle))) [
  | inl missing ↦ ground (arith, missing)
  | inr (i, e) ↦ ground (arith, e, sane.unlocked i)
]

close-IsSane : (handle : ℕ) (k : Kernel) → IsSane k → IsSane (close handle k).2
unfolding close
close-IsSane handle k sane = ground (arith, free-IsValid k.handles (low32 handle) sane.table)

-- A call of a handler, or the end of a wait, which consumes an event.
pub data Call : Type 0 where
  creates_event creates_semaphore : ℕ → ℕ → Call
  creates_mutex : Call
  sets resets releases closes consumes : ℕ → Call

unfoldable pub step : Layout → Kernel → Call → Kernel
step layout k (creates_event event_type initial_state) =
    (create_event layout event_type initial_state k).2
step layout k (creates_semaphore initial maximum) = (create_semaphore layout initial maximum k).2
step layout k creates_mutex = (create_mutex layout k).2
step layout k (sets h) = (set_event h k).2
step layout k (resets h) = (reset_event h k).2
step layout k (releases h) = (release_mutex h k).1
step layout k (closes h) = (close h k).2
step layout k (consumes slot) = consume slot k

unfoldable pub run : Layout → Kernel → List Call → Kernel
run layout k [] = k
run layout k (c ∷ cs) = run layout (step layout k c) cs

-- Every handler keeps the handle table valid, the arrays at their size with the counts within it,
-- and every mutex unlocked.
pub step-IsSane : (layout : Layout) (k : Kernel) (c : Call) → IsSane k → IsSane (step layout k c)
unfolding step
step-IsSane layout k (creates_event event_type initial_state) sane =
    create_event-IsSane layout event_type initial_state k sane
step-IsSane layout k (creates_semaphore initial maximum) sane =
    create_semaphore-IsSane layout initial maximum k sane
step-IsSane layout k creates_mutex sane = create_mutex-IsSane layout k sane
step-IsSane layout k (sets h) sane = set_event-IsSane h k sane
step-IsSane layout k (resets h) sane = reset_event-IsSane h k sane
step-IsSane layout k (releases h) sane = rw (step, release_mutex-IsSane h k sane) sane
step-IsSane layout k (closes h) sane = close-IsSane h k sane
step-IsSane layout k (consumes slot) sane = consume-IsSane slot k sane

-- From a sane state, every history of handler calls keeps the handle table valid, the arrays at
-- their size with the counts within it, and every mutex unlocked.
pub run-IsSane :
    (layout : Layout) (k : Kernel) (cs : List Call) → IsSane k → IsSane (run layout k cs)
unfolding run
run-IsSane layout k [] sane = sane
run-IsSane layout k (c ∷ cs) sane =
    run-IsSane layout (step layout k c) cs (step-IsSane layout k c sane)

-- No history of handler calls from a fresh process ever locks a mutex, so `NtReleaseMutex` refuses
-- every handle, those of its own mutexes included, and changes nothing.
pub release_mutex-run :
    (layout : Layout) (cs : List Call) (handle : ℕ)
    → release_mutex handle (run layout start cs) ≡ (invalid_handle, run layout start cs)
release_mutex-run layout cs handle =
    release_mutex-IsSane handle _ (run-IsSane layout start cs start-IsSane)
