-- ===== src/Rooms.antt =====
-- internals/rooms: rooms for guests, on top of the table `rooms` and of LiveKit.
pub mod Repository
pub mod Service
pub mod Enforcer
pub mod Lifecycle
pub mod Columns
pub mod Methods
pub mod Tokens
pub mod Sessions
pub mod Handler
pub mod Serving
pub mod Tests
pub mod Issuing
pub mod Enforcing
pub mod Creating
