-- ===== src/Sound/Frames.antt =====
-- How src/backend/sdl2/rb_audio_mix.c reads a frame of a buffer and adds it to a frame of the stream. An int
-- is its bit pattern, of 16 or of 32 bits. The product of a sample with the gain and the pan, in floating point,
-- is an argument for each side and each width of the device.
use my_wine.Prelude.{ℕ, ◌+◌, ◌-◌, ◌*◌, ◌/◌, ◌%◌, ◌^◌, Bool, ltb, leb, ◌==◌, if◌then◌else◌}
use my_wine.Pe.Memory.{Bytes, read, write}
use my_wine.Sound.Mix.{Device}

-- What rb_audio_read_frame uses of `rb_audio_buf`, beside the length of a frame.
pub record Samples : Type 0 where
  pub sample_data : Bytes
  pub bits_per_sample : ℕ
  pub channels : ℕ

-- A sample scaled for the left and the right side, to 16 and to 8 bits.
pub record Scale : Type 0 where
  pub left_16 : ℕ → ℕ
  pub right_16 : ℕ → ℕ
  pub left_8 : ℕ → ℕ
  pub right_8 : ℕ → ℕ

-- rb_audio_decode_u8
unfoldable pub decode_u8 : ℕ → ℕ
decode_u8 sample = (sample * 256 + 2 ^ 15) % 2 ^ 16

-- rb_audio_read_frame, for an index that is not negative.
unfoldable pub read_frame : Samples → ℕ → ℕ → ℕ × ℕ
unfolding decode_u8
read_frame samples bytes_per_frame frame_index =
    let src = frame_index * bytes_per_frame in
    if leb samples.bits_per_sample 8
    then (
      decode_u8 (samples.sample_data src),
      if leb 2 samples.channels
          then decode_u8 (samples.sample_data (src + 1))
          else decode_u8 (samples.sample_data src),
    )
    else (
      read 2 samples.sample_data src,
      if leb 2 samples.channels
          then read 2 samples.sample_data (src + 2)
          else read 2 samples.sample_data src,
    )

-- An int16_t as an int, and the order of ints.
abbrev pub sign_extend : ℕ → ℕ
sign_extend v = if leb (2 ^ 15) v then v + (2 ^ 32 - 2 ^ 16) else v

abbrev pub less : ℕ → ℕ → Bool
less x y = ltb ((x + 2 ^ 31) % 2 ^ 32) ((y + 2 ^ 31) % 2 ^ 32)

-- The two tests that keep a sum in range.
abbrev pub clamp : ℕ → ℕ → ℕ → ℕ
clamp low high x = let y = if less x low then low else x in if less high y then high else y

-- One side of a frame in rb_audio_mix_s16 and in rb_audio_mix_u8.
abbrev pub add_s16 : Bytes → ℕ → ℕ → Bytes
add_s16 stream out scaled =
    write 2 stream out
      (clamp (2 ^ 32 - 32768) 32767 ((sign_extend (read 2 stream out) + scaled) % 2 ^ 32) % 2 ^ 16)

abbrev pub add_u8 : Bytes → ℕ → ℕ → Bytes
add_u8 stream out scaled = write 1 stream out (
    (clamp (2 ^ 32 - 128) 127 ((read 1 stream out + (2 ^ 32 - 128) + scaled) % 2 ^ 32) + 128)
    % 2 ^ 8)

-- rb_audio_mix_s16
unfoldable pub mix_s16 : Scale → Device → ℕ → ℕ → ℕ → Bytes → Bytes
mix_s16 scale d out left right stream =
    let first = add_s16 stream out (scale.left_16 left) in
    if leb 2 d.device_channels then add_s16 first (out + 2) (scale.right_16 right) else first

-- rb_audio_mix_u8
unfoldable pub mix_u8 : Scale → Device → ℕ → ℕ → ℕ → Bytes → Bytes
mix_u8 scale d out left right stream =
    let first = add_u8 stream out (scale.left_8 left) in
    if leb 2 d.device_channels then add_u8 first (out + 1) (scale.right_8 right) else first

-- The body of the loop of rb_audio_mix_buffer: frame `source_index` goes into frame `frame_index`.
unfoldable pub mix_frame : Scale → Device → Samples → ℕ → ℕ → ℕ → Bytes → Bytes
mix_frame scale d samples bytes_per_frame frame_index source_index stream =
    let device_bps = d.device_bits / 8 in
    let out = frame_index * (device_bps * d.device_channels) in
    let (left, right) = read_frame samples bytes_per_frame source_index in
    if device_bps == 1
    then mix_u8 scale d out left right stream
    else mix_s16 scale d out left right stream
