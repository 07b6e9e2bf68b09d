-- ===== src/HttpOps.antt =====
-- src/http_ops.rs
pub mod Split
pub mod Fees
pub mod Inbox
pub mod Outbox
pub mod Send
pub mod Acknowledge
pub mod Internalize
pub mod Listing
