-- ===== src/Conversations.antt =====
-- internals/models and internals/handlers/convo.go: private conversations and their messages.
pub mod Messages
pub mod Private
pub mod Handlers
pub mod Paging
pub mod Delivery
pub mod Pairs
pub mod Tests
