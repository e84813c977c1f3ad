-- ===== src/Bucket.antt =====
-- internal/bucket: the stock of a product in several keys of Redis.
pub mod Probe
pub mod Spread
pub mod Laws
