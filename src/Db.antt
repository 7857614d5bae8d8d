-- ===== src/Db.antt =====
-- The repositories (backend/src/db), with the constraints of backend/migrations.
pub mod NetworkRepo
pub mod ContainerRepo
pub mod AuditRepo
pub mod WebhookRepo
pub mod AuthStore
pub mod ApiTokenRepo
pub mod UserRepo
pub mod OauthAppRepo
pub mod OauthCodeRepo
pub mod OauthTokenRepo
