-- ===== src/Models/Oauth.antt =====
-- OAuth applications, authorization codes and refresh tokens (backend/src/models/oauth.rs). The
-- description of an application and the prefix of its secret are left out.
use hzelmaim.Prelude.{Option, List}
use hzelmaim.Prelude.Bytes.{Bytes}
use hzelmaim.Models.User.{Uuid, DateTime}

pub record OauthApplication : Type 0 where
  pub id : Uuid
  pub owner_user_id : Uuid
  pub name : Bytes
  pub client_id : Uuid
  pub client_secret_hash : Bytes
  pub redirect_uris : List Bytes
  pub created_at : DateTime
  pub revoked_at : Option DateTime

pub record OauthAuthorizationCode : Type 0 where
  pub id : Uuid
  pub app_id : Uuid
  pub user_id : Uuid
  pub code_hash : Bytes
  pub redirect_uri : Bytes
  pub expires_at : DateTime
  pub used_at : Option DateTime

pub record OauthRefreshToken : Type 0 where
  pub id : Uuid
  pub app_id : Uuid
  pub user_id : Uuid
  pub token_hash : Bytes
  pub created_at : DateTime
  pub last_used_at : Option DateTime
  pub revoked_at : Option DateTime
