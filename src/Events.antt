-- ===== src/Events.antt =====
-- The event state of src/backend/sdl2/rb_event_state.c.
pub mod Routes
pub mod Synthetic
