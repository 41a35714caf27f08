-- ===== src/Maadapter.antt =====
-- internal/maadapter: the client of Music Assistant.
pub mod Frame
pub mod Message
pub mod Reply
pub mod Call
pub mod Status
mod Tests
