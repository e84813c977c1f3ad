-- ===== src/Expire.antt =====
-- internal/expire: orders that are not paid in time are closed and their stock is given back.
pub mod Latency
pub mod Close
pub mod Index
pub mod Clock
pub mod Stop
