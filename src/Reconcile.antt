-- ===== src/Reconcile.antt =====
-- internal/reconcile: the ledger of pre-deductions, and the job that settles what a crash leaves.
pub mod Ledger
pub mod Settle
pub mod Crash
pub mod Accepted
pub mod Repeat
pub mod Scan
