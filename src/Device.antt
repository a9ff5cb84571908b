-- ===== src/Device.antt =====
-- internal/fastiron: one device, its lock, its saves and its configuration updates.
pub mod Failure
pub mod Connection
pub mod Select
pub mod Save
pub mod Update
pub mod Gate
mod Tests
