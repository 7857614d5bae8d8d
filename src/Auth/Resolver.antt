-- ===== src/Auth/Resolver.antt =====
-- The order in which a request is authenticated (backend/src/auth/resolver.rs). SHA-256 is a
-- parameter, and so are the crates for tokens and UUIDs.
pub mod Evidence
pub mod Identity
use hzelmaim.Prelude.{Option, none, some, List, String, leb, if◌then◌else◌}
use hzelmaim.Prelude.Bytes.{Bytes, strip_prefix, starts_with, lower_hex}
use hzelmaim.Prelude.Text.{codes}
use hzelmaim.Api.{err, ok_or, unauthorized}
use hzelmaim.Api.Headers.{HeaderMap}
use hzelmaim.Models.User.{
  DateTime, Uuid, AuthenticatedUser, UserRecord, AuthMethod, pat, oidc, oauth,
}
use hzelmaim.World.{M, ◌>>=◌, ◌>>◌, pure, lift, attempt, match_result, utc_now}
use hzelmaim.Auth.Session.{is_some, authenticate_headers}
use hzelmaim.Auth.Jwt.{JsonWebToken, AccessTokenClaims, validate_access_token}
use hzelmaim.Db.ApiTokenRepo
use hzelmaim.Db.UserRepo

-- What the resolver is configured with.
pub record AuthConfig : Type 0 where
  pub jwt : JsonWebToken
  pub sha256 : Bytes → Bytes
  pub secret : Bytes
  pub cookie_name : Bytes

abbrev pub pat_prefix : Bytes
pat_prefix = codes "hzel_"

unfoldable pub hash_pat : AuthConfig → Bytes → Bytes
hash_pat c token = lower_hex (c.sha256 token)

-- The actor of a user who comes without a session row.
unfoldable pub stateless :
    UserRecord → Option Uuid → AuthMethod → DateTime → Option (List String) → AuthenticatedUser
stateless u session_id method now scopes = record {
  user_id = u.id;
  session_id = session_id;
  email = u.email;
  role = u.role;
  auth_method = method;
  authenticated_at = now;
  oauth_scopes = scopes;
}

-- `Some(expires_at)` with `expires_at <= Utc::now()` is an error; the clock is read only then.
unfoldable pub check_expiry : Option DateTime → M (Unit {0})
check_expiry none = pure tt
check_expiry (some expires_at) = do
  now ← utc_now
  if leb expires_at now then lift (err unauthorized) else pure tt

-- The task that is spawned for `touch` is run at once: its result is not looked at.
unfoldable pub resolve_pat : AuthConfig → Bytes → M AuthenticatedUser
resolve_pat c token = do
  found ← ApiTokenRepo.find_by_hash (hash_pat c token)
  r ← lift (ok_or found unauthorized)
  if is_some r.revoked_at then lift (err unauthorized) else do
    check_expiry r.expires_at
    owner ← UserRepo.get r.user_id
    u ← lift (ok_or owner unauthorized)
    _ ← attempt (ApiTokenRepo.touch r.id)
    now ← utc_now
    pure (stateless u none pat now none)

abbrev pub and_parsed : (Bytes → Option Uuid) → Option Bytes → Option Uuid
and_parsed parse none = none
and_parsed parse (some s) = parse s

-- Tokens of OAuth applications carry a client id, those of OIDC a session id.
abbrev oauth_actor : AccessTokenClaims → UserRecord → M AuthenticatedUser
oauth_actor claims u = do now ← utc_now; pure (stateless u none oauth now (some claims.scopes))

unfoldable pub actor_of_claims : AuthConfig → AccessTokenClaims → UserRecord → M AuthenticatedUser
actor_of_claims c claims u = if is_some claims.client_id then oauth_actor claims u else do
  session_id ← lift (ok_or (and_parsed c.jwt.parse_uuid claims.session_id) unauthorized)
  now ← utc_now
  pure (stateless u (some session_id) oidc now none)

unfoldable pub resolve_jwt : AuthConfig → Bytes → M AuthenticatedUser
resolve_jwt c token = do
  now ← utc_now
  claims ← lift (validate_access_token c.jwt c.secret now token)
  user_id ← lift (ok_or (c.jwt.parse_uuid claims.sub) unauthorized)
  found ← UserRepo.get user_id
  u ← lift (ok_or found unauthorized)
  actor_of_claims c claims u

abbrev or_header : Option Bytes → Option Bytes → Option Bytes
or_header (some token) header = some token
or_header none none = none
or_header none (some v) = strip_prefix (codes "Bearer ") v

-- The query parameter of a WebSocket, or the header.
unfoldable pub bearer_token : Option Bytes → HeaderMap → Option Bytes
bearer_token bearer_override headers = or_header bearer_override (headers "authorization")

unfoldable pub resolve_bearer : AuthConfig → Option Bytes → M AuthenticatedUser
resolve_bearer c raw_token = do
  token ← lift (ok_or raw_token unauthorized)
  if starts_with pat_prefix token then resolve_pat c token else resolve_jwt c token

unfoldable pub resolve_authenticated_user :
    AuthConfig → HeaderMap → Option Bytes → M AuthenticatedUser
resolve_authenticated_user c headers bearer_override = do
  session ← attempt (authenticate_headers c.jwt.parse_uuid c.cookie_name headers)
  match_result session (λ s. pure s.user)
      (λ e. resolve_bearer c (bearer_token bearer_override headers))
