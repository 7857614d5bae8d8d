-- ===== src/Handlers.antt =====
-- Handlers that do more than pass a request on (backend/src/api/handlers).
pub mod Auth
pub mod Oauth
