-- ===== src/Auth/Csrf.antt =====
-- The check against cross-site requests (backend/src/auth/csrf.rs).
pub mod Guard
use hzelmaim.Prelude.{Bool, false, Option, none, some, if◌then◌else◌}
use hzelmaim.Prelude.Bytes.{Bytes, bytes_eq, starts_with}
use hzelmaim.Prelude.Text.{codes}
use hzelmaim.Api.{Result, ok, err, csrf_rejected}
use hzelmaim.Api.Headers.{HeaderMap}
use hzelmaim.Models.User.{Uuid}
use hzelmaim.World.{M, ◌>>=◌, ◌>>◌, pure, lift}
use hzelmaim.Auth.Session.{AuthenticatedSession, authenticate_headers}

abbrev compared : Bytes → Option Bytes → Result (Unit {0})
compared csrf_token none = err csrf_rejected
compared csrf_token (some header_value) =
    if bytes_eq header_value csrf_token then ok tt else err csrf_rejected

unfoldable pub validate_csrf_headers : HeaderMap → AuthenticatedSession → Result (Unit {0})
validate_csrf_headers headers session = compared session.csrf_token (headers "x-csrf-token")

abbrev bearer_text : Option Bytes → Bool
bearer_text none = false
bearer_text (some h) = starts_with (codes "Bearer ") h

unfoldable pub is_bearer : HeaderMap → Bool
is_bearer headers = bearer_text (headers "authorization")

module _ (parse_uuid : Bytes → Option Uuid) (cookie_name : Bytes) where
  -- The session in the extensions of the request, or that of the cookie.
  unfoldable pub cached_or : Option AuthenticatedSession → HeaderMap → M AuthenticatedSession
  cached_or none headers = authenticate_headers parse_uuid cookie_name headers
  cached_or (some session) headers = pure session

  -- The extractor `CsrfProtected`; the answer is what it leaves in the extensions.
  unfoldable pub csrf_protected :
      Option AuthenticatedSession → HeaderMap → M (Option AuthenticatedSession)
  csrf_protected extension headers = if is_bearer headers then pure extension else do
    session ← cached_or extension headers
    lift (validate_csrf_headers headers session)
    pure (some session)
