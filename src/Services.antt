-- ===== src/Services.antt =====
-- The services (backend/src/services).
pub mod AuditService
pub mod ContainerService
pub mod Addressing
pub mod NetworkService
pub mod TerminalService
pub mod WebhookService
