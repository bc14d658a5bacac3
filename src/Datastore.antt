-- ===== src/Datastore.antt =====
-- internal/controller/datastore_controller.go
pub mod Source
pub mod Reconcile
