-- ===== src/Webhooks.antt =====
-- internals/webhooks/handler.go: the events that LiveKit sends.
pub mod Events
pub mod Handler
pub mod Keeps
pub mod Replay
pub mod Recordings
pub mod Attendance
pub mod Tests
