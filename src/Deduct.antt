-- ===== src/Deduct.antt =====
-- internal/deduct: the optimistic update, the distributed lock and the pre-deduction in Redis.
pub mod Stock
pub mod PreDeduct
pub mod Optimistic
pub mod Lock
