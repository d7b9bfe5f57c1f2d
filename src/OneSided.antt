-- ===== src/OneSided.antt =====
-- The one-sided RDMA server and client, and the functions that they share.
pub mod Calls
pub mod Common
pub mod Server
pub mod Client
pub mod Remote
pub mod Compare
pub mod Events
pub mod Tests
pub mod Disconnect
pub mod Completions
