-- ===== src/Kernel/Wait/Relative.antt =====
-- The loop of handler_NtWaitForSingleObject (src/msvcrt/ntdll_synchronization.c) for a relative
-- timeout, when no sleep is interrupted.
use my_wine.Prelude.{
  ℕ, zero, suc, ◌+◌, ◌-◌, ◌*◌, ◌%◌, ◌^◌, ◌≤◌, ◌<◌, ◌≡◌, ◌≢◌, refl, arith, inl, inr, false,
  Bool-cases, none, some, ltb, ltb→lt, lt→ltb, ◌==◌,
}
use my_wine.Kernel.{Kernel, Status, success, timeout, low32, event_at, find_event}
use my_wine.Kernel.Wait.{Nap, consume, poll, sleep_us, slept, wait_relative, wait}

-- A nap that sleeps its time out.
abbrev pub IsFull : Nap → Type 0
IsFull nap = nap.interrupted ≡ false

-- While a whole microsecond is left, a full nap advances by at least one of them, by whole ones,
-- and not past the end.
nap_advances :
    (remaining : ℕ) (nap : Nap)
    → IsFull nap
    → 1000 ≤ remaining
    → let gained = slept (sleep_us remaining) nap in
      (1000 ≤ gained) × (gained ≤ remaining) × (gained % 1000 ≡ 0)
unfolding slept sleep_us
nap_advances remaining nap full h = ground arith

-- With less than a microsecond left, a full nap does not advance at all.
nap_stalls :
    (remaining : ℕ) (nap : Nap) → IsFull nap → remaining < 1000 → slept (sleep_us remaining) nap ≡ 0
unfolding slept sleep_us
nap_stalls remaining nap full h = ground arith

-- The elapsed time after one more full nap of a loop that still runs.
next_elapsed :
    (delay elapsed : ℕ) (nap : Nap)
    → IsFull nap
    → delay < 2 ^ 64
    → delay % 1000 ≡ 0
    → elapsed % 1000 ≡ 0
    → elapsed < delay
    → let next = (elapsed + slept (sleep_us (delay - elapsed)) nap) % 2 ^ 64 in
      (next % 1000 ≡ 0) × (next ≤ delay) × (elapsed + 1000 ≤ next)
next_elapsed delay elapsed nap full small whole part more =
    let adv = nap_advances (delay - elapsed) nap full (omega arith) in
    (omega (arith, adv), omega (arith, adv), omega (arith, adv))

module _ (naps : ℕ → Nap) (full : (n : ℕ) → IsFull (naps n)) (slot : ℕ) where
  relative_ends :
      (fuel n delay elapsed : ℕ) (k : Kernel)
      → delay < 2 ^ 64
      → delay % 1000 ≡ 0
      → elapsed % 1000 ≡ 0
      → elapsed ≤ delay
      → delay < fuel * 1000 + elapsed
      → (r : Status × Kernel) × (wait_relative naps fuel n delay elapsed slot k ≡ some r)
  unfolding wait_relative
  relative_ends zero n delay elapsed k small whole part under enough = absurd (omega arith)
  relative_ends (suc fuel) n delay elapsed k small whole part under enough =
      let next = (elapsed + slept (sleep_us (delay - elapsed)) (naps n)) % 2 ^ 64 in
      elim (Bool-cases (ltb elapsed delay)) [
        | inr over ↦ (poll slot k, rw over refl)
        | inl more ↦ elim (Bool-cases ((event_at k slot).signaled == 0)) [
          | inr signaled ↦ ((success, consume slot k), rw (more, signaled) refl)
          | inl quiet ↦
              let e =
                next_elapsed delay elapsed (naps n) (full n) small whole part (ground arith) in
              rw (more, quiet)
                (relative_ends fuel (n + 1) delay
                  ((elapsed + slept (sleep_us (delay - elapsed)) (naps n)) % 2 ^ 64)
                  ((naps n).others k) small whole e.0 e.1 (omega (arith, e.2)))
        ]
      ]

-- The same where the time is no whole number of microseconds: the end is never reached.
next_elapsed_below :
    (delay elapsed : ℕ) (nap : Nap)
    → IsFull nap
    → delay < 2 ^ 64
    → delay % 1000 ≢ 0
    → elapsed % 1000 ≡ 0
    → elapsed < delay
    → let next = (elapsed + slept (sleep_us (delay - elapsed)) nap) % 2 ^ 64 in
      (next % 1000 ≡ 0) × (next < delay)
next_elapsed_below delay elapsed nap full small odd part more =
    elim (Bool-cases (ltb (delay - elapsed) 1000)) [
      | inl last ↦
          let stays = nap_stalls (delay - elapsed) nap full (ltb→lt _ _ last) in
          (omega (arith, stays), omega (arith, stays))
      | inr far ↦
          let adv = nap_advances (delay - elapsed) nap full (ground arith) in
          (omega (arith, adv), omega (arith, adv))
    ]

-- Nobody signals the event while the wait sleeps.
abbrev pub IsQuiet : (ℕ → Nap) → ℕ → Type 0
IsQuiet naps slot =
    (n : ℕ) (k : Kernel)
    → (event_at k slot).signaled ≡ 0
    → (event_at ((naps n).others k) slot).signaled ≡ 0

module _ (naps : ℕ → Nap) (full : (n : ℕ) → IsFull (naps n)) (slot : ℕ)
    (quiet : IsQuiet naps slot) where
  relative_times_out :
      (fuel n delay elapsed : ℕ) (k : Kernel)
      → delay < 2 ^ 64
      → delay % 1000 ≡ 0
      → elapsed % 1000 ≡ 0
      → elapsed ≤ delay
      → delay < fuel * 1000 + elapsed
      → (event_at k slot).signaled ≡ 0
      → (k' : Kernel) × (wait_relative naps fuel n delay elapsed slot k ≡ some (timeout, k'))
  unfolding wait_relative
  relative_times_out zero n delay elapsed k small whole part under enough off = absurd (omega arith)
  relative_times_out (suc fuel) n delay elapsed k small whole part under enough off =
      elim (Bool-cases (ltb elapsed delay)) [
        | inr over ↦ (k, unfold poll in ground arith)
        | inl more ↦
            let e = next_elapsed delay elapsed (naps n) (full n) small whole part (ground arith) in
            rw (more, off)
              (relative_times_out fuel (n + 1) delay
                ((elapsed + slept (sleep_us (delay - elapsed)) (naps n)) % 2 ^ 64)
                ((naps n).others k) small whole e.0 e.1 (omega (arith, e.2)) (quiet n k off))
      ]

  relative_stalls :
      (fuel n delay elapsed : ℕ) (k : Kernel)
      → delay < 2 ^ 64
      → delay % 1000 ≢ 0
      → elapsed % 1000 ≡ 0
      → elapsed < delay
      → (event_at k slot).signaled ≡ 0
      → wait_relative naps fuel n delay elapsed slot k ≡ none
  unfolding wait_relative
  relative_stalls zero n delay elapsed k small odd part under off = refl
  relative_stalls (suc fuel) n delay elapsed k small odd part under off =
      rw (lt→ltb elapsed delay under, off)
        (relative_stalls fuel (n + 1) delay
          ((elapsed + slept (sleep_us (delay - elapsed)) (naps n)) % 2 ^ 64) ((naps n).others k)
          small odd (next_elapsed_below delay elapsed (naps n) (full n) small odd part under).0
          (next_elapsed_below delay elapsed (naps n) (full n) small odd part under).1
          (quiet n k off))

-- The nanoseconds of a relative timeout with bit pattern `t`, which stands for `t - 2 ^ 64` units of
-- 100 nanoseconds.
abbrev pub delay_ns : ℕ → ℕ
delay_ns t = (2 ^ 64 - t) * 100

-- NtWaitForSingleObject on an event that is found, with a relative timeout of a whole number of
-- microseconds that fits 64 bits in nanoseconds, comes back, whatever the other threads do to the
-- event, when no sleep is interrupted: a thousandth of the nanoseconds, and one, is fuel enough.
pub wait_returns :
    (naps : ℕ → Nap) (full : (n : ℕ) → IsFull (naps n)) (fuel handle slot t : ℕ) (k : Kernel)
    → find_event k (low32 handle) ≡ some slot
    → 2 ^ 63 ≤ t
    → t < 2 ^ 64
    → delay_ns t < 2 ^ 64
    → delay_ns t % 1000 ≡ 0
    → delay_ns t < fuel * 1000
    → (r : Status × Kernel) × (wait naps fuel handle (some t) k ≡ some r)
unfolding wait
wait_returns naps full fuel handle slot t k found neg top small whole enough =
    let r =
      relative_ends naps full slot fuel 0 (delay_ns t) 0 k small whole (omega arith) (omega arith)
        (omega arith) in
    (r.0, ground (arith, found, r.1))

-- NtWaitForSingleObject on an event that is found and unsignaled, and that nobody signals
-- meanwhile, with a relative timeout of a whole number of microseconds that fits 64 bits in
-- nanoseconds and no sleep interrupted, comes back with STATUS_TIMEOUT: a thousandth of the
-- nanoseconds, and one, is fuel enough.
pub wait_times_out :
    (naps : ℕ → Nap) (full : (n : ℕ) → IsFull (naps n)) (fuel handle slot t : ℕ) (k : Kernel)
    → IsQuiet naps slot
    → find_event k (low32 handle) ≡ some slot
    → (event_at k slot).signaled ≡ 0
    → 2 ^ 63 ≤ t
    → t < 2 ^ 64
    → delay_ns t < 2 ^ 64
    → delay_ns t % 1000 ≡ 0
    → delay_ns t < fuel * 1000
    → (k' : Kernel) × (wait naps fuel handle (some t) k ≡ some (timeout, k'))
unfolding wait
wait_times_out naps full fuel handle slot t k quiet found off neg top small whole enough =
    let r =
      relative_times_out naps full slot quiet fuel 0 (delay_ns t) 0 k small whole (omega arith)
        (omega arith) (omega arith) off in
    (r.0, ground (arith, found, r.1))

-- A relative timeout that fits 64 bits in nanoseconds and is no whole number of microseconds never
-- expires: on an event that is found and unsignaled, and that nobody signals, no number of full
-- sleeps brings the wait to its end.
pub wait_stalls :
    (naps : ℕ → Nap) (full : (n : ℕ) → IsFull (naps n)) (fuel handle slot t : ℕ) (k : Kernel)
    → IsQuiet naps slot
    → find_event k (low32 handle) ≡ some slot
    → (event_at k slot).signaled ≡ 0
    → 2 ^ 63 ≤ t
    → t < 2 ^ 64
    → delay_ns t < 2 ^ 64
    → delay_ns t % 1000 ≢ 0
    → wait naps fuel handle (some t) k ≡ none
unfolding wait
wait_stalls naps full fuel handle slot t k quiet found off neg top small odd =
    let r =
      relative_stalls naps full slot quiet fuel 0 (delay_ns t) 0 k small odd (omega arith)
        (omega arith) off in
    ground (arith, found, r)
