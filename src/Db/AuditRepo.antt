-- ===== src/Db/AuditRepo.antt =====
-- Audit log persistence (backend/src/db/audit_repo.rs).
use hzelmaim.Prelude.{◌∷◌, [], ◌++◌}
use hzelmaim.Models.Audit.{AuditLogRecord}
use hzelmaim.World.{M, update}

unfoldable pub insert : AuditLogRecord → M (Unit {0})
insert r = update (λ d. record d { audit_logs = d.audit_logs ++ r ∷ [] })
