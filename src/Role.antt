-- ===== src/Role.antt =====
-- internal/controller/database_role_controller.go
pub mod Statements
pub mod Provision
pub mod Reconcile
pub mod Evidence
