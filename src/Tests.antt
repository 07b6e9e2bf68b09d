-- ===== src/Tests.antt =====
-- Runs on concrete data, and the theorems at concrete arguments.
pub mod Toy
pub mod Pure
pub mod Effects
pub mod Orders
pub mod Requests
pub mod Rooms
pub mod Fees
pub mod Sending
pub mod Live
pub mod Overlay
pub mod Loops
