-- ===== src/Delivery.antt =====
-- The messages between the server and a worker, from one side's blocks to the other's.
pub mod Buffers
pub mod Down
pub mod Up
pub mod Inputs
mod Tests
