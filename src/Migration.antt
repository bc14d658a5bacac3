-- ===== src/Migration.antt =====
-- internal/controller/migration_controller.go
pub mod Table
pub mod Apply
pub mod Reconcile
pub mod Evidence
pub mod Protocol
