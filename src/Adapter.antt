-- ===== src/Adapter.antt =====
-- internal/adapter: the two ways to reach a service, in the process and over gRPC.
pub mod Inprocess
pub mod Int32
pub mod Code
pub mod Rpc
