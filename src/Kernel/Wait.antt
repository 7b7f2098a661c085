-- ===== src/Kernel/Wait.antt =====
-- handler_NtWaitForSingleObject of src/msvcrt/ntdll_synchronization.c. The 64-bit timeout is its bit
-- pattern, and no timeout is a NULL pointer. What happens during the k-th sleep, the answer of
-- nanosleep and the writes of the other threads, is a parameter. A wait that the fuel does not see
-- to its end is `none`.
pub mod Relative
use my_wine.Prelude.{
  ℕ, zero, suc, ◌+◌, ◌-◌, ◌*◌, ◌/◌, ◌%◌, ◌^◌, ◌≤◌, ◌<◌, ◌≡◌, ◌≢◌, refl, arith, inl, inr, ◌⊎◌, Bool,
  true, false, Bool-cases, Option, none, some, ltb, leb, ◌==◌, if◌then◌else◌,
}
use my_wine.Kernel.{
  Kernel, Status, success, timeout, invalid_handle, low32, event_at, put_event, find_event,
}

-- One call of nanosleep: whether it failed, the `rem` that it wrote, and what the other threads did
-- to the kernel objects meanwhile.
pub record Nap : Type 0 where
  pub interrupted : Bool
  pub rem_sec : ℕ
  pub rem_nsec : ℕ
  pub others : Kernel → Kernel

-- `if (event_type == 1) signaled = 0`: a synchronization event is consumed by the wait.
unfoldable pub consume : ℕ → Kernel → Kernel
consume slot k =
    if (event_at k slot).event_type == 1
    then put_event k slot (record (event_at k slot) { signaled = 0 })
    else k

-- A look at the event without sleeping.
unfoldable pub poll : ℕ → Kernel → Status × Kernel
unfolding consume
poll slot k = if (event_at k slot).signaled == 0 then (timeout, k) else (success, consume slot k)

-- `sleep_us`, at most 100 ms a round
unfoldable pub sleep_us : ℕ → ℕ
sleep_us remaining = if ltb 100000 (remaining / 1000) then 100000 else remaining / 1000

-- `slept`: what a round adds to the elapsed time
unfoldable pub slept : ℕ → Nap → ℕ
slept us nap =
    if nap.interrupted then (nap.rem_sec * 1000000000 + nap.rem_nsec) % 2 ^ 64 else us * 1000

module _ (naps : ℕ → Nap) where
  -- The wait without a timeout.
  unfoldable pub wait_forever : ℕ → ℕ → ℕ → Kernel → Option (Status × Kernel)
  wait_forever zero n slot k = none
  wait_forever (suc fuel) n slot k =
      let rest = wait_forever fuel (n + 1) slot ((naps n).others k) in
      if (event_at k slot).signaled == 0 then rest else some (success, consume slot k)

  -- The loop of a relative timeout of `delay` nanoseconds, and the last look after it.
  unfoldable pub wait_relative : ℕ → ℕ → ℕ → ℕ → ℕ → Kernel → Option (Status × Kernel)
  wait_relative zero n delay elapsed slot k = none
  wait_relative (suc fuel) n delay elapsed slot k =
      let nap = naps n in
      let gained = slept (sleep_us (delay - elapsed)) nap in
      let rest =
        wait_relative fuel (n + 1) delay ((elapsed + gained) % 2 ^ 64) slot (nap.others k) in
      if ltb elapsed delay
      then if (event_at k slot).signaled == 0 then rest else some (success, consume slot k)
      else some (poll slot k)

  -- What follows once the event is found; an absolute time is not waited for.
  wait_at : ℕ → Option ℕ → ℕ → Kernel → Option (Status × Kernel)
  wait_at fuel none slot k = wait_forever fuel 0 slot k
  wait_at fuel (some t) slot k =
      if ltb t (2 ^ 63)
      then some (poll slot k)
      else wait_relative fuel 0 ((2 ^ 64 - t) * 100 % 2 ^ 64) 0 slot k

  -- handler_NtWaitForSingleObject
  unfoldable pub wait : ℕ → ℕ → Option ℕ → Kernel → Option (Status × Kernel)
  unfolding wait_at
  wait fuel handle t k = elim (find_event k (low32 handle)) [
    | none ↦ some (invalid_handle, k)
    | some slot ↦ wait_at fuel t slot k
  ]
