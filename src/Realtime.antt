-- ===== src/Realtime.antt =====
-- internals/realtime: the hub of the websocket connections.
pub mod Hub
pub mod Payloads
pub mod Incoming
pub mod Marks
pub mod Honesty
pub mod Posting
pub mod Connection
pub mod Sending
pub mod Open
pub mod Arrival
pub mod Tests
