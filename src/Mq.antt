-- ===== src/Mq.antt =====
-- internal/mq and the consumer of cmd/api: orders through Kafka.
pub mod Retry
pub mod Enqueue
pub mod Poll
pub mod Lag
pub mod Headers
pub mod Redelivery
