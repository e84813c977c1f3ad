-- ===== src/Inventory.antt =====
-- internal/inventory/reservation.go and internal/asyncorder/service.go: the reservation of stock under
-- a request id, and the asynchronous order that uses it.
pub mod Ledger
pub mod Safety
pub mod Held
pub mod AsyncOrder
