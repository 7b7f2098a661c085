-- ===== src/Tests/SoundTests.antt =====
-- Locking and mixing a sound buffer (src/msvcrt/dsound_buffer_control.c, src/backend/sdl2/rb_audio_mix.c).
use my_wine.Prelude.{
  ℕ, ◌*◌, ◌-◌, ◌/◌, ◌^◌, ◌<◌, ◌≡◌, refl, arith, true, false, List, [], ◌∷◌, Option, some,
}
use my_wine.Sound.Lock.{DsBuffer, ds_ok, lock}
use my_wine.Sound.Regions.{InBounds, lock-InBounds, ring_regions, lock_ring}
use my_wine.Sound.Mix.{AudioBuf, Device, frame_count, mix_buffer}
use my_wine.Sound.Frames.{Scale, mix_s16, mix_u8}
use my_wine.Pe.Memory.{read, write}
use my_wine.Sound.Playback.{mix_buffer-kept}

-- The handle 7 has 100 bytes of data behind it.
abbrev backend : ℕ → Option ℕ
backend handle = some 100

abbrev secondary : DsBuffer
secondary = record { is_primary = false; rb_buffer = 7; buffer_bytes = 100 }

-- A request whose sum with the offset wraps around.
lock-InBounds_example : InBounds (some 100) (lock backend secondary 8 4294967292 0).1
lock-InBounds_example = lock-InBounds backend secondary 8 4294967292 0

lock_ring_example : lock backend secondary 180 30 0 ≡ (ds_ok, ring_regions 100 80 30)
lock_ring_example =
    lock_ring backend 7 100 180 30 (λ e. absurd (omega (arith, e))) refl (omega arith) (omega arith)
      (omega arith)

abbrev device : Device
device = record { device_rate = 22050; device_channels = 2; device_bits = 16 }

abbrev tone : AudioBuf
tone = record {
  has_data = true;
  buffer_size = 8;
  sample_rate = 22050;
  bytes_per_frame = 4;
  playing = true;
  loop = true;
  frequency = 0;
  cursor_fp = 3 * 2 ^ 32;
}

-- The frames that are read, the last one first.
abbrev note_frame : ℕ → ℕ → List ℕ → List ℕ
note_frame k i frames = i ∷ frames

abbrev AllBelow : List ℕ → Type 0
AllBelow [] = Unit {0}
AllBelow (i ∷ frames) = (i < 2) × AllBelow frames

two_frames : frame_count tone ≡ 2
unfolding frame_count
two_frames = refl

mix_buffer-kept_example :
    (r : List ℕ × AudioBuf) × (mix_buffer note_frame (2 ^ 32) device 16 tone [] ≡ some r)
    × AllBelow r.0
mix_buffer-kept_example =
    mix_buffer-kept note_frame AllBelow (2 ^ 32) device 16 tone [] (omega arith) (omega arith)
      (λ k i frames lk li below. (omega (arith, li, two_frames), below)) tt

-- A loud sample on a loud stream stays at the top, for 16 and for 8 bits.
abbrev loud : Scale
loud = record { left_16 = λ v. v; right_16 = λ v. v; left_8 = λ v. v / 256; right_8 = λ v. v / 256 }

clamped_16 : read 2 (mix_s16 loud device 0 32767 32767 (write 2 (λ i. 0) 0 32000)) 0 ≡ 32767
unfolding mix_s16 read write
clamped_16 = refl

clamped_8 : mix_u8 loud device 0 32767 32767 (λ i. 200) 0 ≡ 255
unfolding mix_u8 read write
clamped_8 = refl

-- The sample -32768 on a silent stream.
lowest_16 : read 2 (mix_s16 loud device 0 (2 ^ 32 - 32768) 0 (λ i. 0)) 0 ≡ 32768
unfolding mix_s16 read write
lowest_16 = refl
