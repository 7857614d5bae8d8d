-- ===== src/Services/AuditService.antt =====
-- Audit logging (backend/src/services/audit_service.rs).
use hzelmaim.Prelude.{suc, arith, ◌≤◌, ◌≡◌, refl, Option, List, String, ◌∷◌, [], ◌++◌}
use hzelmaim.Models.User.{Uuid}
use hzelmaim.World.{M, Db, World, ◌>>=◌, pure, attempt, utc_now, new_v4, tick}
use hzelmaim.Api.{Result, ok}
use hzelmaim.World.After.{
  After, After-pure, After-bind, After-new_v4, After-utc_now, After-attempt, After-update,
}
use hzelmaim.World.Keeps.{Keeps, Keeps-update, keeps_rules}
use hzelmaim.Models.Audit.{AuditLogRecord}
use hzelmaim.Db.AuditRepo

-- A failure to store the record is only reported in the program's own log.
unfoldable pub log_success : Option Uuid → Option Uuid → String → M (Unit {0})
log_success user_id container_id action = do
  id ← new_v4
  now ← utc_now
  _ ← attempt (
      AuditRepo.insert (record {
        id = id;
        user_id = user_id;
        container_id = container_id;
        action = action;
        outcome = "success";
        metadata = [];
        created_at = now;
      }))
  pure tt

unfoldable pub log_failure : Option Uuid → Option Uuid → String → String → M (Unit {0})
log_failure user_id container_id action reason = do
  id ← new_v4
  now ← utc_now
  _ ← attempt (
      AuditRepo.insert (record {
        id = id;
        user_id = user_id;
        container_id = container_id;
        action = action;
        outcome = "failure";
        metadata = ("reason", reason) ∷ [];
        created_at = now;
      }))
  pure tt

-- Logging changes the audit log only.
module _ (P : Db → Type 0)
    (keep : (d : Db) (l : List AuditLogRecord) → P d → P (record d { audit_logs = l })) where
  insert-Keeps : (r : AuditLogRecord) → Keeps P (AuditRepo.insert r)
  unfolding AuditRepo.insert
  insert-Keeps r = Keeps-update _ λ d h. keep d (d.audit_logs ++ r ∷ []) h

  pub log_success-Keeps : (u c : Option Uuid) (action : String) → Keeps P (log_success u c action)
  unfolding log_success
  log_success-Keeps u c action = search (keeps_rules, insert-Keeps) depth 12

later : (w : World) → w.steps ≤ suc (suc (suc w.steps))
later w = omega arith

-- Logging never fails.
pub log_success_lem :
    (u c : Option Uuid) (action : String) (w : World) (Q : Result (Unit {0}) → World → Type 0)
    → ((l : List AuditLogRecord) (w' : World)
        → w'.db ≡ record w.db { audit_logs = l }
        → w'.env ≡ w.env
        → w'.trace ≡ w.trace
        → w.steps ≤ w'.steps
        → Q (ok tt) w')
    → After (log_success u c action) w Q
unfolding log_success AuditRepo.insert
log_success_lem u c action w Q logged = After-bind _ w _ _ (
    After-new_v4 w _ (
      After-bind _ (tick w) _ _ (
        After-utc_now (tick w) _ (
          After-bind _ (tick (tick w)) _ _ (
            After-attempt _ (tick (tick w)) _ (
              After-update _ (tick (tick w)) _
                (After-pure _ _ _
                  (logged w.db.audit_logs (tick (tick (tick w))) refl refl refl (omega arith)))
                (After-pure _ _ _ (logged _ _ refl refl refl (later w)))))))))
