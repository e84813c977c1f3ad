-- ===== src/Order.antt =====
-- internal/order: placing an order by the transaction with a row lock, and the naive way.
pub mod Statements
pub mod Effect
pub mod Transact
pub mod Place
pub mod Spec
pub mod Naive
