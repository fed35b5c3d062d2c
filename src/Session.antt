-- ===== src/Session.antt =====
-- The package session: the window of the last messages, and the session that is saved and loaded.
pub mod Buffer
pub mod State
pub mod Files
mod Tests
