-- ===== src/Auth/Resolver/Evidence.antt =====
-- What can speak for an actor.
use hzelmaim.Prelude.{
  ℕ, ◌+◌, ◌≤◌, ◌<◌, ◌≡◌, refl, true, false, Option, none, some, String, find_row, ◌==◌, arith,
  if◌then◌else◌,
}
use hzelmaim.Prelude.Bytes.{Bytes, bytes_eq, starts_with, lower_hex}
use hzelmaim.Api.{ApiError, Result, ok, err}
use hzelmaim.Api.Headers.{HeaderMap}
use hzelmaim.Models.User.{
  Uuid, DateTime, UserRecord, AuthenticatedUser, pat, oauth, oidc, effective_role, is_admin,
}
use hzelmaim.Models.Session.{SessionRecord, ApiTokenRecord}
use hzelmaim.World.{World}
use hzelmaim.Auth.Cookie.{extract_cookie}
use hzelmaim.Auth.Session.{AuthenticatedSession, is_some}
use hzelmaim.Auth.Session.Evidence.{Live, Absent}
use hzelmaim.Auth.Session.Validity.{Waited}
use hzelmaim.Auth.Jwt.{AccessTokenClaims, validate_access_token}
use hzelmaim.Auth.Resolver.{AuthConfig, pat_prefix}

-- No expiry, or one that is still ahead while the request runs.
pub data Unexpired (w : World) : Option DateTime → Type 0 where
  never : Unexpired w none
  ahead :
      {expires_at : DateTime} (step : ℕ)
      → w.steps ≤ step
      → w.env.time step + w.slept < expires_at
      → Unexpired w (some expires_at)

-- A personal access token that is stored, not revoked and not expired, of a stored user.
pub record TokenOf (c : AuthConfig) (token : Bytes) (w : World) (actor : AuthenticatedUser)
    : Type 0 where
  pub prefixed : starts_with pat_prefix token ≡ true
  pub row : ApiTokenRecord
  pub row_found :
      find_row (λ t. bytes_eq t.token_hash (lower_hex (c.sha256 token))) w.db.api_tokens ≡ some row
  pub not_revoked : row.revoked_at ≡ none
  pub unexpired : Unexpired w row.expires_at
  pub user : UserRecord
  pub user_found : find_row (λ u. u.id == row.user_id) w.db.users ≡ some user
  pub now : DateTime
  pub same : actor ≡ record {
    user_id = user.id;
    session_id = none;
    email = user.email;
    role = user.role;
    auth_method = pat;
    authenticated_at = now;
    oauth_scopes = none;
  }

-- The actor that claims stand for, with the stored user they name: with a client id, one who comes
-- by an OAuth application with the scopes of the claims, else one with the session of the claims.
pub data ActorOf (c : AuthConfig) (claims : AccessTokenClaims) (user : UserRecord)
    (actor : AuthenticatedUser) : Type 0 where
  of_client :
      (client_id : String) (now : DateTime)
      → claims.client_id ≡ some client_id
      → actor ≡ record {
        user_id = user.id;
        session_id = none;
        email = user.email;
        role = user.role;
        auth_method = oauth;
        authenticated_at = now;
        oauth_scopes = some claims.scopes;
      }
      → ActorOf c claims user actor
  of_session :
      (raw : Bytes) (session_id : Uuid) (now : DateTime)
      → claims.client_id ≡ none
      → claims.session_id ≡ some raw
      → c.jwt.parse_uuid raw ≡ some session_id
      → actor ≡ record {
        user_id = user.id;
        session_id = some session_id;
        email = user.email;
        role = user.role;
        auth_method = oidc;
        authenticated_at = now;
        oauth_scopes = none;
      }
      → ActorOf c claims user actor

-- Claims that are accepted while the request runs, of a stored user. With a client id the actor
-- has no administrator's rights.
pub record ClaimsOf (c : AuthConfig) (token : Bytes) (w : World) (actor : AuthenticatedUser)
    : Type 0 where
  pub step : ℕ
  pub step_after : w.steps ≤ step
  pub claims : AccessTokenClaims
  pub accepted : validate_access_token c.jwt c.secret (w.env.time step + w.slept) token ≡ ok claims
  pub user_id : Uuid
  pub subject : c.jwt.parse_uuid claims.sub ≡ some user_id
  pub user : UserRecord
  pub user_found : find_row (λ u. u.id == user_id) w.db.users ≡ some user
  pub identity : ActorOf c claims user actor
  pub limited :
      is_admin (effective_role actor)
      ≡ (if is_some claims.client_id then false else is_admin user.role)

-- What a bearer token stands for.
pub data ByBearer (c : AuthConfig) (bearer : Option Bytes) (w : World)
    : Result AuthenticatedUser → Type 0 where
  unknown : {e : ApiError} → ByBearer c bearer w (err e)
  by_pat :
      {actor : AuthenticatedUser} (token : Bytes)
      → bearer ≡ some token
      → TokenOf c token w actor
      → ByBearer c bearer w (ok actor)
  by_jwt :
      {actor : AuthenticatedUser} (token : Bytes)
      → bearer ≡ some token
      → starts_with pat_prefix token ≡ false
      → ClaimsOf c token w actor
      → ByBearer c bearer w (ok actor)

-- The cookie comes first: a bearer token counts only when no cookie speaks for anybody.
pub data Resolved (c : AuthConfig) (headers : HeaderMap) (bearer : Option Bytes) (w : World)
    : Result AuthenticatedUser → Type 0 where
  by_session :
      {s : AuthenticatedSession} (token : Bytes) (session_id : Uuid) (row : SessionRecord)
      → extract_cookie headers c.cookie_name ≡ some token
      → c.jwt.parse_uuid token ≡ some session_id
      → Live session_id row w s
      → Resolved c headers bearer w (ok s.user)
  by_bearer :
      {r : Result AuthenticatedUser}
      → Absent c.jwt.parse_uuid c.cookie_name headers w
      → ByBearer c bearer w r
      → Resolved c headers bearer w r

-- What speaks for an actor after a wait speaks for them before it.
module _ (w v : World) (still : Waited w v) where
  same_time : (step : ℕ) → v.env.time step + v.slept ≡ w.env.time step + w.slept
  same_time step = rw (still.env, still.slept) refl

  Unexpired-before : {o : Option DateTime} → Unexpired v o → Unexpired w o
  Unexpired-before never = never
  Unexpired-before (ahead step l h) =
      ahead step (omega (arith, still.steps)) (omega (arith, same_time step))

  pub ByBearer-before :
      (c : AuthConfig) (raw : Option Bytes) (r : Result AuthenticatedUser)
      → ByBearer c raw v r
      → ByBearer c raw w r
  ByBearer-before c raw r unknown = unknown
  ByBearer-before c raw r (by_pat token a t) = by_pat token a (record {
    prefixed = t.prefixed;
    row = t.row;
    row_found = rw (← still.db) t.row_found;
    not_revoked = t.not_revoked;
    unexpired = Unexpired-before t.unexpired;
    user = t.user;
    user_found = rw (← still.db) t.user_found;
    now = t.now;
    same = t.same;
  })
  ByBearer-before c raw r (by_jwt token a p t) = by_jwt token a p (record {
    step = t.step;
    step_after = omega (arith, t.step_after, still.steps);
    claims = t.claims;
    accepted = rw (← same_time t.step) t.accepted;
    user_id = t.user_id;
    subject = t.subject;
    user = t.user;
    user_found = rw (← still.db) t.user_found;
    identity = t.identity;
    limited = t.limited;
  })
