-- ===== src/Sound.antt =====
-- Sound buffers: src/msvcrt/dsound_buffer_control.c over src/backend/sdl2/rb_audio.c and rb_audio_mix.c.
pub mod Lock
pub mod Regions
pub mod Mix
pub mod Playback
pub mod Frames
pub mod Stream
