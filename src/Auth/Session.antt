-- ===== src/Auth/Session.antt =====
-- Sessions in cookies (backend/src/auth/session.rs). `Uuid::parse_str` is a parameter.
pub mod Evidence
pub mod Validity
pub mod Revocation
use hzelmaim.Prelude.{Bool, true, false, not, Option, none, some, leb, if◌then◌else◌}
use hzelmaim.Prelude.Bytes.{Bytes}
use hzelmaim.Api.{err, ok_or, unauthorized, forbidden}
use hzelmaim.Api.Headers.{HeaderMap}
use hzelmaim.Models.User.{
  Uuid, DateTime, AuthenticatedUser, UserRecord, UserStatus, active, disabled,
}
use hzelmaim.Models.Session.{SessionRecord}
use hzelmaim.World.{M, ◌>>=◌, ◌>>◌, pure, lift, utc_now}
use hzelmaim.Auth.Cookie.{extract_cookie}
use hzelmaim.Db.AuthStore

pub record AuthenticatedSession : Type 0 where
  pub user : AuthenticatedUser
  pub csrf_token : Bytes
  pub expires_at : DateTime

-- `is_some()`
abbrev pub is_some : {A : Type 0} → Option A → Bool
is_some none = false
is_some (some a) = true

-- `status == UserStatus::Active`
abbrev pub is_active : UserStatus → Bool
is_active active = true
is_active disabled = false

unfoldable pub session_of : SessionRecord → UserRecord → AuthenticatedSession
session_of s u = record {
  user = record {
    user_id = u.id;
    session_id = some s.id;
    email = u.email;
    role = u.role;
    auth_method = s.auth_method;
    authenticated_at = s.created_at;
    oauth_scopes = none;
  };
  csrf_token = s.csrf_token;
  expires_at = s.expires_at;
}

-- From the lookup of the user on.
unfoldable pub admit : SessionRecord → M AuthenticatedSession
admit s = do
  found ← AuthStore.get_user s.user_id
  u ← lift (ok_or found unauthorized)
  if not (is_active u.status)
      then lift (err forbidden)
      else do AuthStore.touch_session s.id; pure (session_of s u)

module _ (parse_uuid : Bytes → Option Uuid) (cookie_name : Bytes) where
  -- `revoked_at.is_some() || expires_at <= Utc::now()`: the clock is read only when it matters.
  unfoldable pub authenticate_headers : HeaderMap → M AuthenticatedSession
  authenticate_headers headers = do
    session_token ← lift (ok_or (extract_cookie headers cookie_name) unauthorized)
    session_id ← lift (ok_or (parse_uuid session_token) unauthorized)
    found ← AuthStore.get_session session_id
    s ← lift (ok_or found unauthorized)
    if is_some s.revoked_at
        then lift (err unauthorized)
        else do now ← utc_now; if leb s.expires_at now then lift (err unauthorized) else admit s

unfoldable pub revoke_session : Uuid → M (Unit {0})
revoke_session session_id = AuthStore.revoke_session session_id
