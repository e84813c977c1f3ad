-- ===== src/Api.antt =====
-- cmd/api/main.go: the process that puts the packages together.
pub mod Settings
pub mod Handlers
pub mod Gate
pub mod Consumer
pub mod AsyncLedger
pub mod Debug
pub mod Stop
