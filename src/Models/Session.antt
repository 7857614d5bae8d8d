-- ===== src/Models/Session.antt =====
-- Sessions and personal access tokens (backend/src/models/session.rs, models/api_token.rs). The
-- label and the prefix of a token are left out.
use hzelmaim.Prelude.{Option}
use hzelmaim.Prelude.Bytes.{Bytes}
use hzelmaim.Models.User.{Uuid, DateTime, AuthMethod}

pub record SessionRecord : Type 0 where
  pub id : Uuid
  pub user_id : Uuid
  pub csrf_token : Bytes
  pub auth_method : AuthMethod
  pub expires_at : DateTime
  pub created_at : DateTime
  pub last_seen_at : DateTime
  pub revoked_at : Option DateTime

pub record ApiTokenRecord : Type 0 where
  pub id : Uuid
  pub user_id : Uuid
  pub token_hash : Bytes
  pub last_used_at : Option DateTime
  pub expires_at : Option DateTime
  pub created_at : DateTime
  pub revoked_at : Option DateTime
