-- ===== src/Platform.antt =====
-- The packages that every module of the program is built on.
pub mod Errors
pub mod Tx
pub mod Secrets
pub mod Index
pub mod Inbox
pub mod InboxWays
pub mod InboxLaws
pub mod Idempotency
pub mod IdempotencyLaws
pub mod Logged
pub mod Auth
pub mod AuthLaws
