-- ===== src/Session.antt =====
-- The sessions of the bridge (internal/session): what is played, its state, and the manager that
-- moves sessions between states and drives the streamer.
pub mod Types
pub mod Metadata
pub mod Manager
pub mod Api
pub mod Ops
pub mod Link
pub mod StreamUrl
mod Tests
