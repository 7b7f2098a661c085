-- ===== src/Sound/Playback.antt =====
-- The loops of rb_audio_mix_buffer in src/backend/sdl2/rb_audio_mix.c.
use my_wine.Prelude.{
  ℕ, zero, suc, ◌+◌, ◌-◌, ◌*◌, ◌/◌, ◌%◌, ◌^◌, ◌≤◌, ◌<◌, ◌≡◌, refl, arith, inl, inr, ◌⊎◌, Bool,
  false, not, ◌||◌, none, some, ltb, ◌==◌, Bool-cases,
}
use my_wine.Sound.Mix.{
  AudioBuf, Device, cursor_one, step_fp, frame_count, wrap_cursor, output_frames, mix_frames,
  mix_buffer,
}

-- The cursor is brought inside of the buffer, or the buffer is at its end.
wrap_cursor_ends :
    (fuel total : ℕ) (loop : Bool) (cursor : ℕ)
    → 0 < total
    → cursor / cursor_one < fuel
    → (wrap_cursor fuel total loop cursor ≡ some none)
      ⊎ ((c : ℕ) × (wrap_cursor fuel total loop cursor ≡ some (some c)) × (c / cursor_one < total))
unfolding wrap_cursor
wrap_cursor_ends zero total loop cursor frames enough = absurd (omega arith)
wrap_cursor_ends (suc fuel) total loop cursor frames enough =
    elim (Bool-cases (ltb (cursor / cursor_one) total)) [
      | inl inside ↦ inr (cursor, rw inside refl, ground (arith, inside))
      | inr out ↦ elim (Bool-cases loop) [
        | inr stop ↦ inl (rw (out, stop) refl)
        | inl again ↦
            let beyond : total ≤ cursor / cursor_one = ground (arith, out) in
            let ih =
              wrap_cursor_ends fuel total loop (cursor - total * cursor_one) frames
                (omega (arith, beyond)) in
            elim ih [
              | inl e ↦ inl (rw (wrap_cursor, out, again) (rw again at e))
              | inr e ↦ inr (e.0, rw (wrap_cursor, out, again) (rw again at e.1), e.2)
            ]
      ]
    ]

module _ {S : Type 0} (mix : ℕ → ℕ → S → S) (P : S → Type 0) (fuel total frames step : ℕ)
    (kept : (k i : ℕ) (s : S) → k < frames → i < total → P s → P (mix k i s)) where
  mix_frames-kept :
      (rounds k : ℕ) (buf : AudioBuf) (stream : S)
      → 2 ^ 32 ≤ fuel
      → 0 < total
      → buf.cursor_fp < 2 ^ 64
      → k + rounds ≤ frames
      → P stream
      → (r : S × AudioBuf) × (mix_frames mix fuel total step rounds k buf stream ≡ some r) × P r.0
  unfolding mix_frames
  mix_frames-kept zero k buf stream enough some_frames cursor room h = ((stream, buf), refl, h)
  mix_frames-kept (suc rounds) k buf stream enough some_frames cursor room h =
      elim (wrap_cursor_ends fuel total buf.loop buf.cursor_fp some_frames
        (omega (arith, cursor))) [
          | inl e ↦
              rw (mix_frames, e)
                (
                  (stream, record buf { cursor_fp = total * cursor_one % 2 ^ 64; playing = false }),
                  refl,
                  h,
                )
          | inr e ↦
              rw (mix_frames, e.1)
                (mix_frames-kept rounds (k + 1) (record buf { cursor_fp = (e.0 + step) % 2 ^ 64 })
                  (mix k (e.0 / cursor_one) stream) enough some_frames (omega arith) (omega arith)
                  (kept k (e.0 / cursor_one) stream (omega arith) e.2 h))
        ]

-- With fuel for 2 ^ 32 rounds of the inner loop, mixing ends from every cursor of 64 bits, and mixes
-- only frames that lie inside of the buffer into frames that lie inside of the stream: what such
-- mixing keeps of a stream, rb_audio_mix_buffer keeps.
pub mix_buffer-kept :
    {S : Type 0} (mix : ℕ → ℕ → S → S) (P : S → Type 0) (fuel : ℕ) (d : Device) (len : ℕ)
    (buf : AudioBuf) (stream : S)
    → 2 ^ 32 ≤ fuel
    → buf.cursor_fp < 2 ^ 64
    → ((k i : ℕ) (s : S) → k < output_frames d len → i < frame_count buf → P s → P (mix k i s))
    → P stream
    → (r : S × AudioBuf) × (mix_buffer mix fuel d len buf stream ≡ some r) × P r.0
unfolding mix_buffer
mix_buffer-kept mix P fuel d len buf stream enough cursor kept h =
    let frames = output_frames d len in
    let total = frame_count buf in
    let step = step_fp d buf in
    elim (Bool-cases (not buf.playing || not buf.has_data)) [
      | inl silent ↦ rw (mix_buffer, silent) ((stream, buf), refl, h)
      | inr sounds ↦ elim (Bool-cases ((frames == 0) || (total == 0) || (step == 0))) [
        | inl empty ↦
            rw (mix_buffer, sounds, empty) ((stream, record buf { playing = false }), refl, h)
        | inr full ↦
            let some_frames : 0 < total = ground (arith, full) in
            rw (mix_buffer, sounds, full)
              (mix_frames-kept mix P fuel total frames step kept frames 0 buf stream enough
                some_frames cursor (omega arith) h)
      ]
    ]
