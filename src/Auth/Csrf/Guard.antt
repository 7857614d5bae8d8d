-- ===== src/Auth/Csrf/Guard.antt =====
-- What the check lets through.
use hzelmaim.Prelude.{◌≡◌, true, Option, some}
use hzelmaim.Prelude.Bytes.{Bytes}
use hzelmaim.Api.{ApiError, Result, ok, err}
use hzelmaim.Api.Headers.{HeaderMap}
use hzelmaim.Models.User.{Uuid}
use hzelmaim.Models.Session.{SessionRecord}
use hzelmaim.World.{World, ◌>>◌}
use hzelmaim.World.After.{After}
use hzelmaim.Auth.Cookie.{extract_cookie}
use hzelmaim.Auth.Session.{AuthenticatedSession}
use hzelmaim.Auth.Session.Evidence.{Live}
use hzelmaim.Auth.Csrf.{is_bearer}

module _ (parse_uuid : Bytes → Option Uuid) (cookie_name : Bytes)
    (extension : Option AuthenticatedSession) (headers : HeaderMap) (w : World) where
  -- The session of the request: one that an earlier extractor left, or the live one of the cookie.
  pub data Source (s : AuthenticatedSession) : Type 0 where
    cached : extension ≡ some s → Source s
    live :
        (token : Bytes) (session_id : Uuid) (row : SessionRecord)
        → extract_cookie headers cookie_name ≡ some token
        → parse_uuid token ≡ some session_id
        → Live session_id row w s
        → Source s

  pub data Guarded : Result (Option AuthenticatedSession) → Type 0 where
    rejected : {e : ApiError} → Guarded (err e)
    bearer : is_bearer headers ≡ true → Guarded (ok extension)
    matched :
        (s : AuthenticatedSession)
        → Source s
        → headers "x-csrf-token" ≡ some s.csrf_token
        → Guarded (ok (some s))
