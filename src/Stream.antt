-- ===== src/Stream.antt =====
-- The streaming side of the bridge (internal/stream): the ring buffer of a generation, the state of
-- one generation, and the streamer that starts, stops and replaces generations.
pub mod Ring
pub mod Gen
pub mod Replay
pub mod Streamer
pub mod Stderr
mod Tests
