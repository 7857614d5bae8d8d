-- ===== src/Models/Audit.antt =====
-- Audit records (backend/src/models/audit.rs). The metadata is a JSON object whose values are
-- texts, a list of its members: the program writes no other.
use hzelmaim.Prelude.{Option, List, String}
use hzelmaim.Models.User.{Uuid, DateTime}

pub record AuditLogRecord : Type 0 where
  pub id : Uuid
  pub user_id : Option Uuid
  pub container_id : Option Uuid
  pub action : String
  pub outcome : String
  pub metadata : List (String × String)
  pub created_at : DateTime
