-- ===== src/Accounts.antt =====
-- The accounts of registered users: internals/models/user.go, internals/utils, the middleware that
-- authenticates a request, and the handlers of registration, login, sessions and logout.
pub mod Users
pub mod Tokens
pub mod Handlers
pub mod Keeps
pub mod Middleware
pub mod Columns
pub mod Starting
pub mod Sessions
pub mod Rotation
pub mod Tests
pub mod Encryption
pub mod Oauth
pub mod Callback
pub mod Connections
pub mod Examples
pub mod Nameless
