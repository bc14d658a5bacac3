-- ===== src/Webhook.antt =====
-- internal/webhook: the admission webhooks.
pub mod Checks
pub mod Names
pub mod Datastore
pub mod Database
pub mod User
pub mod Role
