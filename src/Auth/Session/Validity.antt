-- ===== src/Auth/Session/Validity.antt =====
-- What an authenticated session stands for.
use hzelmaim.Prelude.{
  ℕ, suc, ◌+◌, ◌≤◌, ◌<◌, ◌≡◌, refl, true, false, not, Option, none, some, find_row, update_rows,
  ◌==◌, leb, arith,
}
use hzelmaim.Prelude.Bytes.{Bytes}
use hzelmaim.Api.{ok_or-some, ok_or-none, ApiError, Result, ok, err}
use hzelmaim.Api.Headers.{HeaderMap}
use hzelmaim.Models.User.{Uuid, DateTime, UserRecord, UserStatus, active, disabled}
use hzelmaim.Models.Session.{SessionRecord}
use hzelmaim.World.{World, tick, clock}
use hzelmaim.World.After.{
  After, After-pure, After-bind, After-lift_bind_told, After-refused, After-select_told,
  After-update_told, After-utc_now, After-if,
}
use hzelmaim.Auth.Cookie.{extract_cookie}
use hzelmaim.Auth.Session.{
  AuthenticatedSession, is_some, is_active, session_of, admit, authenticate_headers,
}
use hzelmaim.Auth.Session.Evidence.{
  Live, Named, Absent, no_cookie, no_uuid, no_session, revoked, expired, no_user, not_active,
  unavailable,
}
use hzelmaim.Db.AuthStore

-- Only time has passed.
pub record Waited (w w' : World) : Type 0 where
  pub db : w'.db ≡ w.db
  pub env : w'.env ≡ w.env
  pub slept : w'.slept ≡ w.slept
  pub steps : w.steps ≤ w'.steps

pub waited :
    {w w' : World}
    → w'.db ≡ w.db
    → w'.env ≡ w.env
    → w'.slept ≡ w.slept
    → w.steps ≤ w'.steps
    → Waited w w'
waited d e s l = record { db = d; env = e; slept = s; steps = l }

-- A request is refused for a reason and nothing changes, or it names a live session, of which only
-- `last_seen_at` changes.
pub data Authenticated (parse_uuid : Bytes → Option Uuid) (cookie_name : Bytes)
    (headers : HeaderMap) (w : World) : Result AuthenticatedSession → World → Type 0 where
  refused :
      {e : ApiError} {w' : World}
      → Waited w w'
      → Absent parse_uuid cookie_name headers w
      → Authenticated parse_uuid cookie_name headers w (err e) w'
  admitted :
      {s : AuthenticatedSession} {w' : World} (token : Bytes) (session_id : Uuid)
      (row : SessionRecord) (now : DateTime)
      → extract_cookie headers cookie_name ≡ some token
      → parse_uuid token ≡ some session_id
      → Live session_id row w s
      → w'.db ≡ record w.db {
        sessions =
            update_rows (λ r. r.id == row.id) (λ r. record r { last_seen_at = now }) w.db.sessions;
      }
      → Authenticated parse_uuid cookie_name headers w (ok s) w'

not_none : {A : Type 0} (o : Option A) → is_some o ≡ false → o ≡ none
not_none none h = refl
not_none (some a) h = absurd (cc)

is_active-true : (s : UserStatus) → not (is_active s) ≡ false → s ≡ active
is_active-true active h = refl
is_active-true disabled h = absurd (cc)

not_active_disabled : (s : UserStatus) → not (is_active s) ≡ true → s ≡ disabled
not_active_disabled active h = absurd (cc)
not_active_disabled disabled h = refl

later : (n m : ℕ) → leb n m ≡ false → m < n
later n m h = ground arith

not_later : (n m : ℕ) → leb n m ≡ true → n ≤ m
not_later n m h = ground arith

module _ (parse_uuid : Bytes → Option Uuid) (cookie_name : Bytes) (headers : HeaderMap) (w : World)
    (row : SessionRecord) (named : Named parse_uuid cookie_name headers w row)
    (fresh : row.revoked_at ≡ none)
    (in_time : w.env.time (suc w.steps) + w.slept < row.expires_at) where
  abbrev Q : Result AuthenticatedSession → World → Type 0
  Q = Authenticated parse_uuid cookie_name headers w

  live :
      (user : UserRecord)
      → find_row (λ u. u.id == row.user_id) w.db.users ≡ some user
      → user.status ≡ active
      → Live named.session_id row w (session_of row user)
  unfolding session_of
  live user known enabled = record {
    row_found = named.row_found;
    not_revoked = fresh;
    step = suc w.steps;
    step_after = omega arith;
    not_expired = in_time;
    user = user;
    user_found = known;
    user_active = enabled;
    identity = record {
      user_id = refl;
      session_id = refl;
      email = refl;
      role = refl;
      auth_method = refl;
      authenticated_at = refl;
      no_scopes = refl;
      csrf_token = refl;
      expires_at = refl;
    };
  }

  admit_lem : After (admit row) (tick (tick w)) Q
  unfolding admit AuthStore.get_user AuthStore.touch_session
  admit_lem = After-bind _ _ _ _ (
      After-select_told _ _ _
        (λ down. refused (waited refl refl refl (omega arith)) (unavailable _ (omega arith) down))
        (λ _.
          After-lift_bind_told
            (λ e unknown.
              refused (waited refl refl refl (omega arith))
                (no_user row named (ok_or-none _ _ e unknown)))
            λ user known.
              After-if _ _ _ _ _
                (λ (off : not (is_active user.status) ≡ true). After-refused _ _ _ (
                  refused (waited refl refl refl (omega arith)) (
                    not_active row user named (ok_or-some _ _ user known)
                      (not_active_disabled user.status off))))
                (λ (act : not (is_active user.status) ≡ false). After-bind _ _ _ _ (
                  After-bind _ _ _ _ (
                    After-utc_now _ _ (
                      After-update_told _ _ _
                        (λ down.
                          refused (waited refl refl refl (omega arith))
                            (unavailable _ (omega arith) down))
                        (λ _. After-pure _ _ _ (
                          admitted named.token named.session_id row _ named.cookie named.parsed
                            (live user (ok_or-some _ _ user known) (is_active-true user.status act))
                            refl))))))))

-- `authenticate_headers` either refuses and leaves the database as it was, because no cookie names
-- a stored session, or that session is revoked, or expired while the request runs, or its user is
-- missing or disabled, or a database call fails; or the cookie names a stored session that is not
-- revoked and not expired while the request runs, and whose user is active: then the answer has
-- the id, the address and the role of that user and the id, the method, the times and the CSRF
-- token of that session, and only its `last_seen_at` is changed.
pub authenticate_headers_lem :
    (parse_uuid : Bytes → Option Uuid) (cookie_name : Bytes) (headers : HeaderMap) (w : World)
    → After
        (authenticate_headers parse_uuid cookie_name headers)
        w
        (Authenticated parse_uuid cookie_name headers w)
unfolding authenticate_headers AuthStore.get_session
authenticate_headers_lem parse_uuid cookie_name headers w =
    After-lift_bind_told
      (λ e missing.
        refused (waited refl refl refl (omega arith)) (no_cookie (ok_or-none _ _ e missing)))
      λ token cookie.
        After-lift_bind_told
          (λ e unread.
            refused (waited refl refl refl (omega arith))
              (no_uuid token (ok_or-some _ _ token cookie) (ok_or-none _ _ e unread)))
          λ session_id parsed. After-bind _ _ _ _ (
            After-select_told _ _ _
              (λ down.
                refused (waited refl refl refl (omega arith)) (unavailable _ (omega arith) down))
              (λ _.
                After-lift_bind_told
                  (λ e unknown. refused (waited refl refl refl (omega arith)) (
                    no_session token session_id (ok_or-some _ _ token cookie)
                      (ok_or-some _ _ session_id parsed) (ok_or-none _ _ e unknown)))
                  λ row found.
                    let named : Named parse_uuid cookie_name headers w row = record {
                      token = token;
                      session_id = session_id;
                      cookie = ok_or-some _ _ token cookie;
                      parsed = ok_or-some _ _ session_id parsed;
                      row_found = ok_or-some _ _ row found;
                    } in
                    After-if _ _ _ _ _
                      (λ (gone : is_some row.revoked_at ≡ true).
                        After-refused _ _ _
                          (refused (waited refl refl refl (omega arith)) (revoked row named gone)))
                      (λ (fresh : is_some row.revoked_at ≡ false). After-bind _ _ _ _ (
                        After-utc_now _ _ (
                          After-if _ _ _ _ _
                            (λ (late : leb row.expires_at (clock (tick w)) ≡ true).
                              After-refused _ _ _ (
                                refused (waited refl refl refl (omega arith)) (
                                  expired row (suc w.steps) named (omega arith)
                                    (not_later row.expires_at (clock (tick w)) late))))
                            (λ (in_time : leb row.expires_at (clock (tick w)) ≡ false).
                              admit_lem parse_uuid cookie_name headers w row named
                                (not_none row.revoked_at fresh)
                                (later row.expires_at (clock (tick w)) in_time)))))))
