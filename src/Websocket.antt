-- ===== src/Websocket.antt =====
-- src/websocket.rs
pub mod Acks
pub mod Room
pub mod Dispatch
pub mod Socket
