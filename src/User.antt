-- ===== src/User.antt =====
-- internal/controller/user_controller.go
pub mod Statements
pub mod Account
pub mod Reconcile
pub mod Evidence
