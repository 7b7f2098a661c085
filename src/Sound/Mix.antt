-- ===== src/Sound/Mix.antt =====
-- src/backend/sdl2/rb_audio_mix.c: the loops over the frames of a buffer that go into a stream. Numbers
-- that the code keeps in `int` are not negative; a cursor has 64 bits, 32 of them behind the point. What
-- is done with one frame is an argument of the loops; Sound/Frames has the one of the code.
use my_wine.Prelude.{
  ℕ, zero, suc, ◌+◌, ◌-◌, ◌*◌, ◌/◌, ◌%◌, ◌^◌, Bool, false, not, ◌||◌, Option, none, some, ltb, ◌==◌,
  if◌then◌else◌,
}

-- What is used of `rb_audio_buf`.
pub record AudioBuf : Type 0 where
  pub has_data : Bool
  pub buffer_size : ℕ
  pub sample_rate : ℕ
  pub bytes_per_frame : ℕ
  pub playing : Bool
  pub loop : Bool
  pub frequency : ℕ
  pub cursor_fp : ℕ

-- What is used of `g_audio`.
pub record Device : Type 0 where
  pub device_rate : ℕ
  pub device_channels : ℕ
  pub device_bits : ℕ

abbrev pub cursor_one : ℕ
cursor_one = 2 ^ 32

-- rb_audio_step_fp
unfoldable pub step_fp : Device → AudioBuf → ℕ
step_fp d buf =
    let source_rate = if not (buf.frequency == 0) then buf.frequency else buf.sample_rate in
    if (source_rate == 0) || (d.device_rate == 0)
    then 0
    else source_rate * cursor_one % 2 ^ 64 / d.device_rate

-- rb_audio_frame_count
unfoldable pub frame_count : AudioBuf → ℕ
frame_count buf = if buf.bytes_per_frame == 0 then 0 else buf.buffer_size / buf.bytes_per_frame

-- The inner loop of rb_audio_mix_buffer: the cursor inside of the buffer, none where a buffer that
-- does not loop is at its end. The outer none is fuel that ran out.
unfoldable pub wrap_cursor : ℕ → ℕ → Bool → ℕ → Option (Option ℕ)
wrap_cursor zero total loop cursor = none
wrap_cursor (suc fuel) total loop cursor =
    let rest = wrap_cursor fuel total loop (cursor - total * cursor_one) in
    if ltb (cursor / cursor_one) total
    then some (some cursor)
    else if not loop
    then some none
    else rest

-- The frames of a stream of `len` bytes.
unfoldable pub output_frames : Device → ℕ → ℕ
output_frames d len =
    let frame_bytes = d.device_bits / 8 * d.device_channels in
    if frame_bytes == 0 then 0 else len / frame_bytes

module _ {ℓ} {S : Type ℓ} (mix : ℕ → ℕ → S → S) where
  -- Its outer loop for `rounds` frames of the stream from `k` on.
  unfoldable pub mix_frames : ℕ → ℕ → ℕ → ℕ → ℕ → AudioBuf → S → Option (S × AudioBuf)
  mix_frames fuel total step zero k buf stream = some (stream, buf)
  mix_frames fuel total step (suc rounds) k buf stream =
      elim (wrap_cursor fuel total buf.loop buf.cursor_fp) [
        | none ↦ none
        | some none ↦
            some (stream, record buf { cursor_fp = total * cursor_one % 2 ^ 64; playing = false })
        | some (some cursor) ↦
            mix_frames fuel total step rounds (k + 1)
              (record buf { cursor_fp = (cursor + step) % 2 ^ 64 })
              (mix k (cursor / cursor_one) stream)
      ]

  -- rb_audio_mix_buffer
  unfoldable pub mix_buffer : ℕ → Device → ℕ → AudioBuf → S → Option (S × AudioBuf)
  mix_buffer fuel d len buf stream =
      let frames = output_frames d len in
      let total = frame_count buf in
      let step = step_fp d buf in
      if not buf.playing || not buf.has_data
      then some (stream, buf)
      else if (frames == 0) || (total == 0) || (step == 0)
      then some (stream, record buf { playing = false })
      else mix_frames fuel total step frames 0 buf stream
