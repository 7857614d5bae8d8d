-- ===== src/Auth/Session/Evidence.antt =====
-- What a session stands for, and why a request has none.
use hzelmaim.Prelude.{ℕ, ◌+◌, ◌≤◌, ◌<◌, ◌≡◌, true, Option, none, some, find_row, ◌==◌}
use hzelmaim.Prelude.Bytes.{Bytes}
use hzelmaim.Api.Headers.{HeaderMap}
use hzelmaim.Models.User.{Uuid, UserRecord, active, disabled}
use hzelmaim.Models.Session.{SessionRecord}
use hzelmaim.World.{World}
use hzelmaim.Auth.Cookie.{extract_cookie}
use hzelmaim.Auth.Session.{AuthenticatedSession, is_some}

-- The answer for a stored session and its user: each of its fields.
pub record IsOf (row : SessionRecord) (user : UserRecord) (s : AuthenticatedSession) : Type 0 where
  pub user_id : s.user.user_id ≡ user.id
  pub session_id : s.user.session_id ≡ some row.id
  pub email : s.user.email ≡ user.email
  pub role : s.user.role ≡ user.role
  pub auth_method : s.user.auth_method ≡ row.auth_method
  pub authenticated_at : s.user.authenticated_at ≡ row.created_at
  pub no_scopes : s.user.oauth_scopes ≡ none
  pub csrf_token : s.csrf_token ≡ row.csrf_token
  pub expires_at : s.expires_at ≡ row.expires_at

-- A stored session that is neither revoked nor expired, of an active user.
pub record Live (session_id : Uuid) (row : SessionRecord) (w : World) (s : AuthenticatedSession)
    : Type 0 where
  pub row_found : find_row (λ r. r.id == session_id) w.db.sessions ≡ some row
  pub not_revoked : row.revoked_at ≡ none
  pub step : ℕ
  pub step_after : w.steps ≤ step
  pub not_expired : w.env.time step + w.slept < row.expires_at
  pub user : UserRecord
  pub user_found : find_row (λ u. u.id == row.user_id) w.db.users ≡ some user
  pub user_active : user.status ≡ active
  pub identity : IsOf row user s

module _ (parse_uuid : Bytes → Option Uuid) (cookie_name : Bytes) (headers : HeaderMap)
    (w : World) where
  -- The stored session that the cookie names.
  pub record Named (row : SessionRecord) : Type 0 where
    pub token : Bytes
    pub session_id : Uuid
    pub cookie : extract_cookie headers cookie_name ≡ some token
    pub parsed : parse_uuid token ≡ some session_id
    pub row_found : find_row (λ r. r.id == session_id) w.db.sessions ≡ some row

  -- Why no cookie speaks for anybody: there is none that names a stored session, or that session is
  -- revoked, or expired while the request runs, or its user is missing or disabled, or a database
  -- call fails.
  pub data Absent : Type 0 where
    no_cookie : extract_cookie headers cookie_name ≡ none → Absent
    no_uuid :
        (token : Bytes)
        → extract_cookie headers cookie_name ≡ some token
        → parse_uuid token ≡ none
        → Absent
    no_session :
        (token : Bytes) (session_id : Uuid)
        → extract_cookie headers cookie_name ≡ some token
        → parse_uuid token ≡ some session_id
        → find_row (λ r. r.id == session_id) w.db.sessions ≡ none
        → Absent
    revoked : (row : SessionRecord) → Named row → is_some row.revoked_at ≡ true → Absent
    expired :
        (row : SessionRecord) (step : ℕ)
        → Named row
        → w.steps ≤ step
        → row.expires_at ≤ w.env.time step + w.slept
        → Absent
    no_user :
        (row : SessionRecord)
        → Named row
        → find_row (λ u. u.id == row.user_id) w.db.users ≡ none
        → Absent
    not_active :
        (row : SessionRecord) (user : UserRecord)
        → Named row
        → find_row (λ u. u.id == row.user_id) w.db.users ≡ some user
        → user.status ≡ disabled
        → Absent
    unavailable : (step : ℕ) → w.steps ≤ step → w.env.db_fault step ≡ true → Absent
