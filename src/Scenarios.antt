-- ===== src/Scenarios.antt =====
-- Concrete stores, and the theorems at concrete inputs.
mod Memory
mod Scores
mod Expiry
mod Edge
mod Orders
mod Stocks
mod Guards
mod Commands
