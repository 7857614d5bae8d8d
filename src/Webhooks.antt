-- ===== src/Webhooks.antt =====
-- Providers of webhooks (backend/src/webhooks).
pub mod Hmac
pub mod Provider
pub mod Github
pub mod Registry
pub mod Spelling
pub mod Signature
