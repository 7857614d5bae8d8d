-- ===== src/Jobs.antt =====
-- Background jobs (backend/src/jobs).
pub mod StateSync
