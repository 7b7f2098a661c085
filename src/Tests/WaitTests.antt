-- ===== src/Tests/WaitTests.antt =====
-- handler_NtWaitForSingleObject of src/msvcrt/ntdll_synchronization.c on one event.
use my_wine.Prelude.{ℕ, ◌-◌, ◌^◌, ◌≡◌, refl, arith, false, none, some, [], ◌∷◌}
use my_wine.Handles
use my_wine.Kernel.{Kernel, Status, timeout, find_event, find_event_from, event_at, create_event}
use my_wine.Kernel.Wait.{Nap, wait}
use my_wine.Kernel.Wait.Relative.{wait_returns, wait_times_out, wait_stalls}
use my_wine.Kernel.Invariant.{start, creates_event, step, run}

-- A process with one synchronization event, of handle 3.
abbrev waiting : Kernel
waiting =
    run (record { event_address = λ i. 64; mutex_address = λ i. 128; semaphore_address = λ i. 192 })
      start (creates_event 1 0 ∷ [])

waiting_found : find_event waiting 3 ≡ some 0
unfolding run step start create_event Handles.alloc Handles.init Handles.find_free find_event
    find_event_from
waiting_found = refl

waiting_unsignaled : (event_at waiting 0).signaled ≡ 0
unfolding run step start create_event Handles.alloc Handles.init Handles.find_free
waiting_unsignaled = refl

-- Sleeps that nothing interrupts, while no other thread runs.
abbrev sleeps : ℕ → Nap
sleeps n = record { interrupted = false; rem_sec = 0; rem_nsec = 0; others = λ k. k }

wait_returns_example :
    (r : Status × Kernel) × (wait sleeps 3 3 (some (2 ^ 64 - 20)) waiting ≡ some r)
wait_returns_example =
    wait_returns sleeps (λ n. refl) 3 3 0 (2 ^ 64 - 20) waiting waiting_found (omega arith)
      (omega arith) (omega arith) (omega arith) (omega arith)

wait_times_out_example :
    (k' : Kernel) × (wait sleeps 3 3 (some (2 ^ 64 - 20)) waiting ≡ some (timeout, k'))
wait_times_out_example =
    wait_times_out sleeps (λ n. refl) 3 3 0 (2 ^ 64 - 20) waiting (λ n k off. off) waiting_found
      waiting_unsignaled (omega arith) (omega arith) (omega arith) (omega arith) (omega arith)

-- 1500 nanoseconds
wait_stalls_example : wait sleeps 1000 3 (some (2 ^ 64 - 15)) waiting ≡ none
wait_stalls_example =
    wait_stalls sleeps (λ n. refl) 1000 3 0 (2 ^ 64 - 15) waiting (λ n k off. off) waiting_found
      waiting_unsignaled (omega arith) (omega arith) (omega arith) (omega arith)
