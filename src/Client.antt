-- ===== src/Client.antt =====
-- src/client.rs
pub mod Dedup
pub mod Poll
pub mod Backstop
pub mod Http
pub mod Live
pub mod Listen
