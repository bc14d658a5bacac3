-- ===== src/Database.antt =====
-- internal/controller/database_controller.go
pub mod Statements
pub mod Provision
pub mod Reconcile
pub mod Evidence
