-- ===== src/Sound/Regions.antt =====
-- The regions that dsound_buffer_Lock of src/msvcrt/dsound_buffer_control.c gives out.
use my_wine.Prelude.{
  ℕ, ◌+◌, ◌-◌, ◌/◌, ◌%◌, ◌^◌, ◌≤◌, ◌<◌, ◌≡◌, ◌≢◌, refl, arith, inl, inr, false, ◌||◌, Option, none,
  some, leb, ltb, ◌==◌, if◌then◌else◌, Bool-cases, Option-cases,
}
use native.Mathlib.Nat.{mod-lt}
use my_wine.Sound.Lock.{DsBuffer, Regions, no_regions, ds_ok, audio_buffer_lock, lock_range, lock}

-- Both regions lie inside of the sound data.
unfoldable pub InBounds : Option ℕ → Regions → Type 0
InBounds backend r =
    ((p : ℕ) → r.ptr1 ≡ some p → (size : ℕ) × (backend ≡ some size) × (p + r.bytes1 ≤ size))
    × ((p : ℕ) → r.ptr2 ≡ some p → (size : ℕ) × (backend ≡ some size) × (p + r.bytes2 ≤ size))

none≢some : (r : ℕ × ℕ) → ◌≢◌ {A = Option (ℕ × ℕ)} none (some r)
none≢some r e = cc

none≢some' : (p : ℕ) → ◌≢◌ {A = Option ℕ} none (some p)
none≢some' p e = cc

some-inj : (r r' : ℕ × ℕ) → ◌≡◌ {A = Option (ℕ × ℕ)} (some r) (some r') → r ≡ r'
some-inj r r' e = cc

some-inj' : (p q : ℕ) → ◌≡◌ {A = Option ℕ} (some p) (some q) → p ≡ q
some-inj' p q e = cc

audio_buffer_lock-in_bounds :
    (backend : Option ℕ) (offset bytes : ℕ) (r : ℕ × ℕ)
    → audio_buffer_lock backend offset bytes ≡ some r
    → (size : ℕ) × (backend ≡ some size) × (r.0 + r.1 ≤ size)
unfolding audio_buffer_lock
audio_buffer_lock-in_bounds none offset bytes r e = absurd (none≢some r e)
audio_buffer_lock-in_bounds (some size) offset bytes r e = elim (Bool-cases (leb size offset)) [
  | inl out ↦ absurd (none≢some r (rw out at e))
  | inr inside ↦
      let len = if ltb (size - offset) bytes then size - offset else bytes in
      let here : ◌≡◌ {A = ℕ × ℕ} (offset, len) r = some-inj (offset, len) r (rw inside at e) in
      let fits : offset + len ≤ size = ground arith in (size, refl, rw (← here) fits)
]

lock_range-InBounds :
    (backend : Option ℕ) (buffer_bytes offset write_bytes : ℕ)
    → InBounds backend (lock_range backend buffer_bytes offset write_bytes).1
unfolding lock_range InBounds
lock_range-InBounds backend buffer_bytes offset write_bytes =
    let size1 = buffer_bytes - offset in
    let rest = (write_bytes + 2 ^ 32 - size1) % 2 ^ 32 in
    elim (Bool-cases (leb ((offset + write_bytes) % 2 ^ 32) buffer_bytes)) [
      | inl one ↦ elim (Option-cases (audio_buffer_lock backend offset write_bytes)) [
        | inl f ↦
            rw (lock_range, one, f)
              ((λ p e. absurd (none≢some' p e), λ p e. absurd (none≢some' p e)))
        | inr r ↦
            let b = audio_buffer_lock-in_bounds backend offset write_bytes r.0 r.1 in
            rw (lock_range, one, r.1)
              ((λ p e. (b.0, b.1, rw (← some-inj' r.0.0 p e) b.2), λ p e. absurd (none≢some' p e)))
      ]
      | inr two ↦ elim (Option-cases (audio_buffer_lock backend offset size1)) [
        | inl f ↦
            rw (lock_range, two, f)
              ((λ p e. absurd (none≢some' p e), λ p e. absurd (none≢some' p e)))
        | inr r ↦ elim (Option-cases (audio_buffer_lock backend 0 rest)) [
          | inl f ↦
              rw (lock_range, two, r.1, f)
                ((λ p e. absurd (none≢some' p e), λ p e. absurd (none≢some' p e)))
          | inr r' ↦
              let b = audio_buffer_lock-in_bounds backend offset size1 r.0 r.1 in
              let b' = audio_buffer_lock-in_bounds backend 0 rest r'.0 r'.1 in
              rw (lock_range, two, r.1, r'.1)
                ((
                  λ p e. (b.0, b.1, rw (← some-inj' r.0.0 p e) b.2),
                  λ p e. (b'.0, b'.1, rw (← some-inj' r'.0.0 p e) b'.2),
                ))
        ]
      ]
    ]

nothing-InBounds : (backend : Option ℕ) → InBounds backend no_regions
unfolding InBounds
nothing-InBounds backend = (λ p e. absurd (none≢some' p e), λ p e. absurd (none≢some' p e))

-- Whatever the cursor, the number of bytes and the flags are, sums that wrap around included, the
-- regions that dsound_buffer_Lock gives out lie inside of the sound data of the backend.
pub lock-InBounds :
    (backend : ℕ → Option ℕ) (b : DsBuffer) (write_cursor write_bytes flags : ℕ)
    → InBounds (backend b.rb_buffer) (lock backend b write_cursor write_bytes flags).1
unfolding lock
lock-InBounds backend b write_cursor write_bytes flags =
    let none_given = nothing-InBounds (backend b.rb_buffer) in
    elim (Bool-cases (b.is_primary || (b.rb_buffer == 0))) [
      | inl e ↦ rw (lock, e) none_given
      | inr e ↦ elim (Bool-cases (b.buffer_bytes == 0)) [
        | inl f ↦ rw (lock, e, f) none_given
        | inr f ↦ elim (Bool-cases (flags / 2 % 2 == 1)) [
          | inl whole ↦
              rw (lock, e, f, whole)
                (lock_range-InBounds (backend b.rb_buffer) b.buffer_bytes 0 b.buffer_bytes)
          | inr part ↦ elim (Bool-cases (write_bytes == 0)) [
            | inl z ↦ rw (lock, e, f, part, z) none_given
            | inr z ↦
                rw (lock, e, f, part, z)
                  (lock_range-InBounds (backend b.rb_buffer) b.buffer_bytes
                    (write_cursor % b.buffer_bytes) write_bytes)
          ]
        ]
      ]
    ]

-- The regions of a request that fits into a buffer: one piece, or the end and the start of the data.
unfoldable pub ring_regions : ℕ → ℕ → ℕ → Regions
ring_regions size offset bytes =
    if leb (offset + bytes) size
    then record { ptr1 = some offset; bytes1 = bytes; ptr2 = none; bytes2 = 0 }
    else record {
      ptr1 = some offset;
      bytes1 = size - offset;
      ptr2 = some 0;
      bytes2 = offset + bytes - size;
    }

audio_buffer_lock-grants :
    (backend : Option ℕ) (size offset bytes : ℕ)
    → backend ≡ some size
    → offset < size
    → bytes + offset ≤ size
    → audio_buffer_lock backend offset bytes ≡ some (offset, bytes)
unfolding audio_buffer_lock
audio_buffer_lock-grants backend size offset bytes there low fits =
    let inside : leb size offset ≡ false = ground arith in
    let whole : ltb (size - offset) bytes ≡ false = ground arith in rw (there, inside, whole) refl

-- For a secondary buffer of less than 2 GiB with data of its size behind it, a request without flags
-- for some bytes, at most the size, is granted as a ring buffer has it: from the cursor, taken
-- round the size, to the end of the data, and the rest from the start.
pub lock_ring :
    (backend : ℕ → Option ℕ) (handle size write_cursor write_bytes : ℕ)
    → handle ≢ 0
    → backend handle ≡ some size
    → size < 2 ^ 31
    → 0 < write_bytes
    → write_bytes ≤ size
    → lock backend
        (record { is_primary = false; rb_buffer = handle; buffer_bytes = size })
        write_cursor
        write_bytes
        0
      ≡ (ds_ok, ring_regions size (write_cursor % size) write_bytes)
unfolding lock lock_range ring_regions
lock_ring backend handle size write_cursor write_bytes real there small some_bytes fits =
    let offset = write_cursor % size in
    let low : offset < size = mod-lt write_cursor (omega arith) in
    let h : (handle == 0) ≡ false = ground (arith, real) in
    let n : (size == 0) ≡ false = ground arith in
    let w : (write_bytes == 0) ≡ false = ground arith in
    let sum : (offset + write_bytes) % 2 ^ 32 ≡ offset + write_bytes = omega arith in
    elim (Bool-cases (leb (offset + write_bytes) size)) [
      | inl one ↦
          let granted =
            audio_buffer_lock-grants (backend handle) size offset write_bytes there low
              (ground (arith, one)) in
          rw (lock, h, n, w, lock_range, sum, one, granted) refl
      | inr two ↦
          let size1 = size - offset in
          let rest : (write_bytes + 2 ^ 32 - size1) % 2 ^ 32 ≡ offset + write_bytes - size =
            ground (arith, two) in
          let first =
            audio_buffer_lock-grants (backend handle) size offset size1 there low (omega arith) in
          let second =
            audio_buffer_lock-grants (backend handle) size 0 (offset + write_bytes - size) there
              (omega arith) (ground (arith, two)) in
          rw (lock, h, n, w, lock_range, sum, two, first, rest, second) refl
    ]
