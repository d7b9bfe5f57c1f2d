-- ===== src/TwoSided.antt =====
-- The two-sided RDMA connection that carries the blocks (rdma_two_sided_*_op.cpp).
pub mod Client
pub mod Server
pub mod Exchange
pub mod Handlers
pub mod Session
pub mod SetupCalls
pub mod ServerSetup
pub mod ClientSetup
pub mod Inputs
mod Tests
