-- ===== src/Db/AuthStore.antt =====
-- The store of users and sessions (backend/src/db/pg_auth_store.rs).
use hzelmaim.Prelude.{
  Bool, ◌||◌, not, Option, none, some, List, [], ◌∷◌, ◌++◌, String, ◌==◌, str_eq, any, find_row,
  update_rows, if◌then◌else◌,
}
use hzelmaim.Models.User.{
  Uuid, UserRecord, UserRole, UserStatus, AuthMethod, admin, user, active, disabled, session, oidc,
  pat, oauth,
}
use hzelmaim.Models.Session.{SessionRecord}
use hzelmaim.World.{M, select, execute, update, utc_now, ◌>>=◌}

unfoldable pub parse_role : String → UserRole
parse_role s = if str_eq s "admin" then admin else user

unfoldable pub parse_status : String → UserStatus
parse_status s = if str_eq s "disabled" then disabled else active

unfoldable pub parse_auth_method : String → AuthMethod
parse_auth_method s =
    if str_eq s "oidc"
    then oidc
    else if str_eq s "pat"
    then pat
    else if str_eq s "oauth"
    then oauth
    else session

unfoldable pub get_user : Uuid → M (Option UserRecord)
get_user user_id = select (λ d. find_row (λ u. u.id == user_id) d.users)

unfoldable pub get_session : Uuid → M (Option SessionRecord)
get_session session_id = select (λ d. find_row (λ s. s.id == session_id) d.sessions)

-- `NOW()` is the time of the statement.
unfoldable pub touch_session : Uuid → M (Unit {0})
touch_session session_id = do
  now ← utc_now
  update λ d. record d {
    sessions =
        update_rows (λ s. s.id == session_id) (λ s. record s { last_seen_at = now }) d.sessions;
  }

unfoldable pub revoke_session : Uuid → M (Unit {0})
revoke_session session_id = do
  now ← utc_now
  update λ d. record d {
    sessions =
        update_rows (λ s. s.id == session_id) (λ s. record s { revoked_at = some now }) d.sessions;
  }

-- PRIMARY KEY (id), REFERENCES users(id).
abbrev pub session_conflict : SessionRecord → List SessionRecord → List UserRecord → Bool
session_conflict r sessions users =
    any (λ (s : SessionRecord). s.id == r.id) sessions
    || not (any (λ (u : UserRecord). u.id == r.user_id) users)

unfoldable pub create_session : SessionRecord → M (Unit {0})
create_session r = execute λ d.
    if session_conflict r d.sessions d.users
    then none
    else some (record d { sessions = d.sessions ++ record r { revoked_at = none } ∷ [] })
