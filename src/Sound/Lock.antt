-- ===== src/Sound/Lock.antt =====
-- dsound_buffer_Lock of src/msvcrt/dsound_buffer_control.c over rb_audio_buffer_lock of
-- src/backend/sdl2/rb_audio.c. The pointers of the arguments are not NULL; a pointer into the sound data
-- is its offset there. The size of the buffer behind a handle of the backend is an argument.
use my_wine.Prelude.{
  ℕ, ◌+◌, ◌-◌, ◌/◌, ◌%◌, ◌^◌, Bool, ◌||◌, Option, none, some, leb, ltb, ◌==◌, if◌then◌else◌,
}

-- What is used of `my_ds_buffer_t`.
pub record DsBuffer : Type 0 where
  pub is_primary : Bool
  pub rb_buffer : ℕ
  pub buffer_bytes : ℕ

-- What stands behind `ptr1`, `bytes1`, `ptr2` and `bytes2`, which hold NULL and 0 before the call.
pub record Regions : Type 0 where
  pub ptr1 : Option ℕ
  pub bytes1 : ℕ
  pub ptr2 : Option ℕ
  pub bytes2 : ℕ

abbrev pub no_regions : Regions
no_regions = record { ptr1 = none; bytes1 = 0; ptr2 = none; bytes2 = 0 }

abbrev pub ds_ok : ℕ
ds_ok = 0

abbrev pub dserr_controlunavail : ℕ
dserr_controlunavail = 0x8878001e

abbrev pub dserr_invalidcall : ℕ
dserr_invalidcall = 0x88780032

abbrev pub dserr_invalidparam : ℕ
dserr_invalidparam = 0x80070057

-- rb_audio_buffer_lock on the buffer behind the handle: the pointer and the length, none for RB_FAIL.
unfoldable pub audio_buffer_lock : Option ℕ → ℕ → ℕ → Option (ℕ × ℕ)
audio_buffer_lock none offset bytes = none
audio_buffer_lock (some buffer_size) offset bytes =
    if leb buffer_size offset
    then none
    else some (offset, if ltb (buffer_size - offset) bytes then buffer_size - offset else bytes)

-- The end of dsound_buffer_Lock, for an offset and a number of bytes: `offset + write_bytes` is a
-- sum of 32 bits.
unfoldable pub lock_range : Option ℕ → ℕ → ℕ → ℕ → ℕ × Regions
unfolding audio_buffer_lock
lock_range backend buffer_bytes offset write_bytes =
    let size1 = buffer_bytes - offset in
    if leb ((offset + write_bytes) % 2 ^ 32) buffer_bytes
    then elim (audio_buffer_lock backend offset write_bytes) [
      | none ↦ (dserr_invalidcall, no_regions)
      | some r ↦ (ds_ok, record no_regions { ptr1 = some r.0; bytes1 = r.1 })
    ]
    else elim (audio_buffer_lock backend offset size1) [
      | none ↦ (dserr_invalidcall, no_regions)
      | some r ↦ elim (audio_buffer_lock backend 0 ((write_bytes + 2 ^ 32 - size1) % 2 ^ 32)) [
        | none ↦ (dserr_invalidcall, record no_regions { bytes1 = r.1 })
        | some r' ↦
            (ds_ok, record { ptr1 = some r.0; bytes1 = r.1; ptr2 = some r'.0; bytes2 = r'.1 })
      ]
    ]

-- dsound_buffer_Lock; DSBLOCK_ENTIREBUFFER is bit 1 of the flags.
unfoldable pub lock : (ℕ → Option ℕ) → DsBuffer → ℕ → ℕ → ℕ → ℕ × Regions
unfolding lock_range
lock backend b write_cursor write_bytes flags =
    let offset = write_cursor % b.buffer_bytes in
    if b.is_primary || (b.rb_buffer == 0)
    then (dserr_controlunavail, no_regions)
    else if b.buffer_bytes == 0
    then (dserr_invalidparam, no_regions)
    else if flags / 2 % 2 == 1
    then lock_range (backend b.rb_buffer) b.buffer_bytes 0 b.buffer_bytes
    else if write_bytes == 0
    then (dserr_invalidparam, no_regions)
    else lock_range (backend b.rb_buffer) b.buffer_bytes offset write_bytes
