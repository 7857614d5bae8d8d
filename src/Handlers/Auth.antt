-- ===== src/Handlers/Auth.antt =====
-- Tokens and the end of a session (backend/src/api/handlers/auth.rs). The random bytes of a new
-- token are a parameter.
pub mod Tokens
pub mod Login
use hzelmaim.Prelude.{
  ℕ, zero, suc, ◌+◌, ◌*◌, ◌/◌, not, Option, none, List, [], ◌∷◌, ◌++◌, ◌==◌, bit_and, bit_or, map,
  where_rows, if◌then◌else◌,
}
use hzelmaim.Prelude.Bytes.{Bytes}
use hzelmaim.Prelude.Text.{codes}
use hzelmaim.Api.{err, ok_or, unauthorized, not_found}
use hzelmaim.Api.Headers.{HeaderMap}
use hzelmaim.Models.User.{Uuid, DateTime, AuthenticatedUser, require_not_oauth}
use hzelmaim.Models.Session.{ApiTokenRecord}
use hzelmaim.World.{M, ◌>>=◌, ◌>>◌, pure, lift, utc_now, new_v4}
use hzelmaim.Auth.Session.{AuthenticatedSession, revoke_session}
use hzelmaim.Auth.Csrf.{cached_or, csrf_protected}
use hzelmaim.Auth.Jwt.{generate_access_token, validate_refresh_token}
use hzelmaim.Auth.Resolver.{AuthConfig, pat_prefix, hash_pat}
use hzelmaim.Db.ApiTokenRepo
use hzelmaim.Db.UserRepo

pub record TokenResponse : Type 0 where
  pub access_token : Bytes
  pub refresh_token : Bytes

unfoldable pub refresh_token : AuthConfig → Bytes → M TokenResponse
refresh_token c presented = do
  now ← utc_now
  claims ← lift (validate_refresh_token c.jwt c.secret now presented)
  user_id ← lift (ok_or (c.jwt.parse_uuid claims.sub) unauthorized)
  session_id ← lift (ok_or (c.jwt.parse_uuid claims.session_id) unauthorized)
  found ← UserRepo.get user_id
  user ← lift (ok_or found unauthorized)
  issued ← utc_now
  access_token ← lift (generate_access_token c.jwt c.secret user_id user.email session_id issued)
  pure (record { access_token = access_token; refresh_token = presented })

-- The extractors run first, and the session of the second is that of the first.
unfoldable pub logout : AuthConfig → Option AuthenticatedSession → HeaderMap → M (Unit {0})
logout c extension headers = do
  left ← csrf_protected c.jwt.parse_uuid c.cookie_name extension headers
  session ← cached_or c.jwt.parse_uuid c.cookie_name left headers
  session_id ← lift (ok_or session.user.session_id unauthorized)
  revoke_session session_id

abbrev pub alphabet : Bytes
alphabet = codes "ABCDEFGHIJKLMNOPQRSTUVWXYZabcdefghijklmnopqrstuvwxyz0123456789+/"

abbrev pub nth : Bytes → ℕ → ℕ
nth [] i = 0
nth (b ∷ s) zero = b
nth (b ∷ s) (suc i) = nth s i

abbrev pub char_at : ℕ → ℕ
char_at i = nth alphabet i

-- `chunks(3)`.
unfoldable pub base64_standard : Bytes → Bytes
base64_standard [] = []
base64_standard (b0 ∷ []) = char_at (b0 / 4) ∷ char_at (bit_or (bit_and b0 3 * 16) 0) ∷ 61 ∷ 61 ∷ []
base64_standard (b0 ∷ b1 ∷ []) =
    char_at (b0 / 4)
    ∷ char_at (bit_or (bit_and b0 3 * 16) (b1 / 16))
    ∷ char_at (bit_or (bit_and b1 15 * 4) 0)
    ∷ 61
    ∷ []
base64_standard (b0 ∷ b1 ∷ b2 ∷ s) =
    char_at (b0 / 4)
    ∷ char_at (bit_or (bit_and b0 3 * 16) (b1 / 16))
    ∷ char_at (bit_or (bit_and b1 15 * 4) (b2 / 64))
    ∷ char_at (bit_and b2 63)
    ∷ base64_standard s

abbrev pub url_safe : ℕ → ℕ
url_safe b = if b == 43 then 45 else if b == 47 then 95 else b

unfoldable pub base64_url_encode : Bytes → Bytes
unfolding base64_standard
base64_url_encode bytes = where_rows (λ b. not (b == 61)) (map url_safe (base64_standard bytes))

-- The token's text, once, and its stored record.
unfoldable pub create_token :
    AuthConfig → AuthenticatedUser → Bytes → Option DateTime → M (Bytes × ApiTokenRecord)
create_token c user raw_bytes expires_at = do
  lift (require_not_oauth user)
  let raw_token : Bytes = pat_prefix ++ base64_url_encode raw_bytes
  id ← new_v4
  now ← utc_now
  let r : ApiTokenRecord = record {
    id = id;
    user_id = user.user_id;
    token_hash = hash_pat c raw_token;
    last_used_at = none;
    expires_at = expires_at;
    created_at = now;
    revoked_at = none;
  }
  ApiTokenRepo.create r
  pure (raw_token, r)

unfoldable pub list_tokens : AuthenticatedUser → M (List ApiTokenRecord)
list_tokens user = do lift (require_not_oauth user); ApiTokenRepo.list_for_user user.user_id

unfoldable pub revoke_token : AuthenticatedUser → Uuid → M (Unit {0})
revoke_token user token_id = do
  lift (require_not_oauth user)
  revoked ← ApiTokenRepo.revoke token_id user.user_id
  if revoked then pure tt else lift (err not_found)
