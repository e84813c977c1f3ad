-- ===== src/Overload.antt =====
-- internal/overload: admission slots, the token bucket, the circuit breaker, the failure payloads
-- and the ordered shutdown.
pub mod Admission
pub mod TokenBucket
pub mod Breaker
pub mod Shutdown
pub mod Payload
