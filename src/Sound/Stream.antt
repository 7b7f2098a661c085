-- ===== src/Sound/Stream.antt =====
-- What src/backend/sdl2/rb_audio_mix.c writes of a stream.
use my_wine.Prelude.{
  ℕ, zero, suc, ◌+◌, ◌*◌, ◌/◌, ◌^◌, ◌≤◌, ◌<◌, ◌≡◌, ◌≢◌, ap, ◌∙◌, refl, arith, inl, inr, some,
  Bool-cases, leb, ◌==◌, if◌then◌else◌,
}
use native.Mathlib.Omega.{div_any}
use native.Mathlib.Nat.{
  mul-le-mul_right, mul-le-mul, mul_comm, suc-mul, mul-suc, mul-zero, zero-mul, one-mul,
}
use my_wine.Pe.Memory.{Bytes, write_outside}
use my_wine.Sound.Mix.{AudioBuf, Device, output_frames, mix_buffer}
use my_wine.Sound.Playback.{mix_buffer-kept}
use my_wine.Sound.Frames.{Samples, Scale, read_frame, add_s16, add_u8, mix_s16, mix_u8, mix_frame}

mix_s16-outside :
    (scale : Scale) (d : Device) (out left right : ℕ) (stream : Bytes) (x : ℕ)
    → (if leb 2 d.device_channels then out + 4 else out + 2) ≤ x
    → mix_s16 scale d out left right stream x ≡ stream x
unfolding mix_s16
mix_s16-outside scale d out left right stream x beyond =
    let first = add_s16 stream out (scale.left_16 left) in
    elim (Bool-cases (leb 2 d.device_channels)) [
      | inl both ↦
          let b : out + 4 ≤ x = rw both at beyond in
          rw both (
            write_outside 2 first (out + 2) _ x (inr (omega arith))
            ∙ write_outside 2 stream out _ x (inr (omega arith)))
      | inr single ↦
          let b : out + 2 ≤ x = rw single at beyond in
          rw single (write_outside 2 stream out _ x (inr b))
    ]

mix_u8-outside :
    (scale : Scale) (d : Device) (out left right : ℕ) (stream : Bytes) (x : ℕ)
    → (if leb 2 d.device_channels then out + 2 else out + 1) ≤ x
    → mix_u8 scale d out left right stream x ≡ stream x
unfolding mix_u8
mix_u8-outside scale d out left right stream x beyond =
    let first = add_u8 stream out (scale.left_8 left) in
    elim (Bool-cases (leb 2 d.device_channels)) [
      | inl both ↦
          let b : out + 2 ≤ x = rw both at beyond in
          rw both (
            write_outside 1 first (out + 1) _ x (inr (omega arith))
            ∙ write_outside 1 stream out _ x (inr (omega arith)))
      | inr single ↦
          let b : out + 1 ≤ x = rw single at beyond in
          rw single (write_outside 1 stream out _ x (inr b))
    ]

-- A frame with a number below the quotient ends inside.
frame_inside : (k frame len : ℕ) → k < len / frame → k * frame + frame ≤ len
frame_inside k frame len below =
    let rows = mul-le-mul_right frame below in
    let whole = div_any len frame in
    let turned = mul_comm frame (len / frame) in
    let next = suc-mul k frame in omega (arith, rows, whole, turned, next)

-- The lengths of the frames of a device with samples of two bytes or more.
wide_frame : (bps channels : ℕ) → 2 ≤ bps → bps * channels ≢ 0 → 2 ≤ bps * channels
wide_frame bps zero wide real = absurd (real (mul-zero bps))
wide_frame bps (suc channels) wide real = let next = mul-suc bps channels in omega (arith, next)

wider_frame : (bps channels : ℕ) → 2 ≤ bps → 2 ≤ channels → 4 ≤ bps * channels
wider_frame bps channels wide both = mul-le-mul wide both

-- A frame of the stream that mix_frame writes is inside of the stream.
mix_frame-outside :
    (scale : Scale) (d : Device) (samples : Samples) (bytes_per_frame len k i : ℕ) (stream : Bytes)
    (x : ℕ)
    → k < output_frames d len
    → len ≤ x
    → mix_frame scale d samples bytes_per_frame k i stream x ≡ stream x
unfolding mix_frame output_frames
mix_frame-outside scale d samples bytes_per_frame len k i stream x below beyond =
    let bps = d.device_bits / 8 in
    let frame = bps * d.device_channels in
    let out = k * frame in
    let source = read_frame samples bytes_per_frame i in
    elim (Bool-cases (frame == 0)) [
      | inl none_at_all ↦ absurd (ground (arith, below))
      | inr real ↦
          let below' : k < len / frame = rw real at below in
          let inside = frame_inside k frame len below' in
          elim (Bool-cases (bps == 1)) [
            | inl narrow ↦
                let one_byte : frame ≡ d.device_channels =
                  ap (λ b. b * d.device_channels) (ground (arith, narrow))
                  ∙ one-mul d.device_channels in
                rw narrow (
                  mix_u8-outside scale d out source.0 source.1 stream x
                    (ground (arith, inside, one_byte, real)))
            | inr wide ↦
                let nonzero : frame ≢ 0 = λ e. ground (arith, e, real) in
                let two : 2 ≤ bps = elim (Bool-cases (bps == 0)) [
                  | inl z ↦
                      let z' : bps ≡ 0 = ground (arith, z) in
                      absurd
                        (nonzero (ap (λ b. b * d.device_channels) z' ∙ zero-mul d.device_channels))
                  | inr some_bytes ↦ ground (arith, wide)
                ] in
                rw wide (
                  mix_s16-outside scale d out source.0 source.1 stream x
                    (elim (Bool-cases (leb 2 d.device_channels)) [
                      | inl both ↦
                          let both' : 2 ≤ d.device_channels = ground (arith, both) in
                          let four = wider_frame bps d.device_channels two both' in
                          rw both (omega (arith, inside, four, beyond))
                      | inr single ↦
                          let pair = wide_frame bps d.device_channels two nonzero in
                          rw single (omega (arith, inside, pair, beyond))
                    ]))
          ]
    ]

-- With fuel for 2 ^ 32 rounds of the inner loop, rb_audio_mix_buffer ends from every cursor of 64 bits, whatever
-- the format of the buffer and of the device, and writes no byte behind the `len` bytes of the stream.
pub mix_buffer-mix_frame :
    (scale : Scale) (samples : Samples) (fuel : ℕ) (d : Device) (len : ℕ) (buf : AudioBuf)
    (stream : Bytes)
    → 2 ^ 32 ≤ fuel
    → buf.cursor_fp < 2 ^ 64
    → (r : Bytes × AudioBuf) × (mix_buffer
          (mix_frame scale d samples buf.bytes_per_frame)
          fuel
          d
          len
          buf
          stream
        ≡ some r)
      × ((x : ℕ) → len ≤ x → r.0 x ≡ stream x)
mix_buffer-mix_frame scale samples fuel d len buf stream enough cursor =
    mix_buffer-kept (mix_frame scale d samples buf.bytes_per_frame)
      (λ s. (x : ℕ) → len ≤ x → s x ≡ stream x) fuel d len buf stream enough cursor
      (λ k i s below inside kept x beyond.
        mix_frame-outside scale d samples buf.bytes_per_frame len k i s x below beyond
        ∙ kept x beyond)
      (λ x beyond. refl)
