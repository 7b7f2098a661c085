-- ===== src/Loader.antt =====
-- The loader of src/loader.
pub mod Modules
pub mod Ordinals
pub mod Imports
pub mod ImportTable
pub mod Resolve
