-- ===== src/Auth.antt =====
-- Authentication (backend/src/auth).
pub mod Cookie
pub mod Session
pub mod Csrf
pub mod Jwt
pub mod Resolver
