-- ===== src/Kernel.antt =====
-- The kernel objects of src/msvcrt/ntdll_priv.h and their handlers in ntdll_objects.c and
-- ntdll_synchronization.c: fixed arrays of events, mutexes and semaphores with a count each,
-- beside the handle table. A handler is one step on the state; its optional output pointer is the
-- answer of the model, which the caller may drop.
pub mod Close
pub mod Wait
pub mod Events
pub mod Stale
pub mod Invariant
use my_wine.Prelude.{
  ℕ, zero, suc, ◌+◌, ◌-◌, ◌%◌, ◌^◌, ◌≡◌, Bool, true, false, ◌||◌, List, [], ◌∷◌, Option, none, some,
  get_or, set, ltb, leb, ◌==◌, if◌then◌else◌,
}
use my_wine.Handles.{Table, alloc, type_event, type_mutex, type_semaphore, type_file, type_section}
use my_wine.Handles

-- `wine_event_t`, `wine_mutex_t` and `wine_semaphore_t`. An `int` is its bit pattern.
pub record Event : Type 0 where
  pub handle : ℕ
  pub signaled : ℕ
  pub event_type : ℕ

pub record Mutex : Type 0 where
  pub handle : ℕ
  pub locked : ℕ

pub record Semaphore : Type 0 where
  pub handle : ℕ
  pub count : ℕ
  pub max_count : ℕ

-- `wine_section_t`, as far as NtClose reads it.
pub record Section : Type 0 where
  pub base : ℕ
  pub size : ℕ

-- The part of `wine_kernel_objects_t` that the handlers below use, with the handle table.
-- A section is found at the address that the handle table stores.
pub record Kernel : Type 0 where
  pub handles : Table
  pub events : List Event
  pub event_count : ℕ
  pub mutexes : List Mutex
  pub mutex_count : ℕ
  pub semaphores : List Semaphore
  pub semaphore_count : ℕ
  pub sections : ℕ → Section

-- MAX_EVENTS, MAX_MUTEXES and MAX_SEMAPHORES are all 64.
abbrev pub max_objects : ℕ
max_objects = 64

-- The NTSTATUS values that the handlers return.
pub data Status : Type 0 where
  success timeout invalid_handle invalid_parameter memory_not_available : Status

-- A cast to `int` or `uint32_t`, as a bit pattern.
abbrev pub low32 : ℕ → ℕ
low32 n = n % 2 ^ 32

abbrev pub no_event : Event
no_event = record { handle = 0; signaled = 0; event_type = 0 }

abbrev pub no_mutex : Mutex
no_mutex = record { handle = 0; locked = 0 }

abbrev pub no_semaphore : Semaphore
no_semaphore = record { handle = 0; count = 0; max_count = 0 }

-- `ko_event(i)`, read
abbrev pub event_at : Kernel → ℕ → Event
event_at k i = get_or k.events i no_event

abbrev pub mutex_at : Kernel → ℕ → Mutex
mutex_at k i = get_or k.mutexes i no_mutex

abbrev pub put_event : Kernel → ℕ → Event → Kernel
put_event k i e = record k { events = set k.events i e }

abbrev pub put_mutex : Kernel → ℕ → Mutex → Kernel
put_mutex k i m = record k { mutexes = set k.mutexes i m }

-- The loops of find_event and find_mutex from index i, over the rounds left; none for -1.
unfoldable pub find_event_from : ℕ → ℕ → List Event → ℕ → Option ℕ
find_event_from zero i es handle = none
find_event_from (suc rounds) i es handle =
    let rest = find_event_from rounds (i + 1) es handle in
    if (get_or es i no_event).handle == handle then some i else rest

unfoldable pub find_event : Kernel → ℕ → Option ℕ
find_event k handle = find_event_from k.event_count 0 k.events handle

find_mutex_from : ℕ → ℕ → List Mutex → ℕ → Option ℕ
find_mutex_from zero i ms handle = none
find_mutex_from (suc rounds) i ms handle =
    let rest = find_mutex_from rounds (i + 1) ms handle in
    if (get_or ms i no_mutex).handle == handle then some i else rest

unfoldable pub find_mutex : Kernel → ℕ → Option ℕ
unfolding find_mutex_from
find_mutex k handle = find_mutex_from k.mutex_count 0 k.mutexes handle

-- The addresses of the three arrays' entries, which the handle table stores as objects.
pub record Layout : Type 0 where
  pub event_address : ℕ → ℕ
  pub mutex_address : ℕ → ℕ
  pub semaphore_address : ℕ → ℕ

module _ (layout : Layout) where
  -- handler_NtCreateEvent. The handle is what `*event_handle` is set to.
  unfoldable pub create_event : ℕ → ℕ → Kernel → Status × Option ℕ × Kernel
  create_event event_type initial_state k =
      if leb max_objects k.event_count
      then (memory_not_available, none, k)
      else (let slot = k.event_count in
          let (h, handles') = alloc type_event (layout.event_address slot) k.handles in
          if low32 h == 0 then (memory_not_available, none, record k { handles = handles' }) else (
            success,
            some (low32 h),
            record k {
              handles = handles';
              event_count = slot + 1;
              events = set k.events slot (record {
                handle = low32 h;
                signaled = if initial_state == 0 then 0 else 1;
                event_type = low32 event_type;
              });
            },
          ))

  -- handler_NtCreateMutex
  unfoldable pub create_mutex : Kernel → Status × Option ℕ × Kernel
  create_mutex k =
      if leb max_objects k.mutex_count
      then (memory_not_available, none, k)
      else (let slot = k.mutex_count in
          let (h, handles') = alloc type_mutex (layout.mutex_address slot) k.handles in
          if low32 h == 0 then (memory_not_available, none, record k { handles = handles' }) else (
            success,
            some (low32 h),
            record k {
              handles = handles';
              mutex_count = slot + 1;
              mutexes = set k.mutexes slot (record { handle = low32 h; locked = 0 });
            },
          ))

  -- handler_NtCreateSemaphore
  unfoldable pub create_semaphore : ℕ → ℕ → Kernel → Status × Option ℕ × Kernel
  create_semaphore initial_count maximum_count k =
      if maximum_count == 0
      then (invalid_parameter, none, k)
      else if leb max_objects k.semaphore_count
      then (memory_not_available, none, k)
      else (let start = if ltb maximum_count initial_count then maximum_count else initial_count in
          let slot = k.semaphore_count in
          let (h, handles') = alloc type_semaphore (layout.semaphore_address slot) k.handles in
          if low32 h == 0 then (memory_not_available, none, record k { handles = handles' }) else (
            success,
            some (low32 h),
            record k {
              handles = handles';
              semaphore_count = slot + 1;
              semaphores = set k.semaphores slot (record {
                handle = low32 h;
                count = low32 start;
                max_count = low32 maximum_count;
              });
            },
          ))

-- handler_NtSetEvent and handler_NtResetEvent differ in the value stored. The option is the previous
-- state, which `*previous_state` is set to.
write_signaled : ℕ → ℕ → Kernel → Status × Option ℕ × Kernel
write_signaled value handle k = elim (find_event k (low32 handle)) [
  | none ↦ (invalid_handle, none, k)
  | some i ↦ (
    success,
    some (event_at k i).signaled,
    put_event k i (record (event_at k i) { signaled = value }),
  )
]

unfoldable pub set_event : ℕ → Kernel → Status × Option ℕ × Kernel
unfolding write_signaled
set_event handle k = write_signaled 1 handle k

unfoldable pub reset_event : ℕ → Kernel → Status × Option ℕ × Kernel
unfolding write_signaled
reset_event handle k = write_signaled 0 handle k

-- handler_NtReleaseMutex
unfoldable pub release_mutex : ℕ → Kernel → Status × Kernel
release_mutex handle k = elim (find_mutex k (low32 handle)) [
  | none ↦ (invalid_handle, k)
  | some i ↦
      if (mutex_at k i).locked == 0
      then (invalid_handle, k)
      else (success, put_mutex k i (record (mutex_at k i) { locked = 0 }))
]
