-- ===== src/Handlers/Oauth.antt =====
-- The OAuth provider (backend/src/api/handlers/oauth.rs). The random bytes that a request draws,
-- SHA-256, `urlencoding::encode` and the texts of UUIDs are parameters. The views that leave out
-- the secret's hash are the records themselves.
pub mod Encoding
pub mod Issue
pub mod Grants
pub mod Codes
pub mod Requests
pub mod Replay
pub mod Owners
pub mod Consent
use hzelmaim.Prelude.{
  ℕ, ◌+◌, ◌*◌, ◌/◌, Bool, not, ◌||◌, Option, none, some, List, [], ◌∷◌, ◌++◌, String, ◌==◌, bit_and,
  bit_or, any, map, if◌then◌else◌,
}
use hzelmaim.Prelude.Bytes.{Bytes, bytes_eq, lower_hex}
use hzelmaim.Prelude.Text.{codes, chars, trim, is_empty}
use hzelmaim.Api.{Result, ok, err, ok_or, unauthorized, validation, not_found, internal}
use hzelmaim.Models.User.{Uuid, AuthenticatedUser}
use hzelmaim.Models.Oauth.{OauthApplication, OauthRefreshToken}
use hzelmaim.World.{M, ◌>>=◌, ◌>>◌, pure, lift, utc_now, new_v4}
use hzelmaim.Auth.Session.{is_some}
use hzelmaim.Auth.Jwt.{generate_oauth_access_token}
use hzelmaim.Auth.Resolver.{AuthConfig}
use hzelmaim.Handlers.Auth.{char_at, url_safe}
use hzelmaim.Db.OauthAppRepo
use hzelmaim.Db.OauthCodeRepo
use hzelmaim.Db.OauthTokenRepo
use hzelmaim.Db.UserRepo

unfoldable pub sha256_hex : AuthConfig → Bytes → Bytes
sha256_hex c value = lower_hex (c.sha256 value)

-- `chunks(3)`, with no padding.
unfoldable pub base64_chunks : Bytes → Bytes
base64_chunks [] = []
base64_chunks (b0 ∷ []) = char_at (b0 / 4) ∷ char_at (bit_or (bit_and b0 3 * 16) 0) ∷ []
base64_chunks (b0 ∷ b1 ∷ []) =
    char_at (b0 / 4)
    ∷ char_at (bit_or (bit_and b0 3 * 16) (b1 / 16))
    ∷ char_at (bit_or (bit_and b1 15 * 4) 0)
    ∷ []
base64_chunks (b0 ∷ b1 ∷ b2 ∷ s) =
    char_at (b0 / 4)
    ∷ char_at (bit_or (bit_and b0 3 * 16) (b1 / 16))
    ∷ char_at (bit_or (bit_and b1 15 * 4) (b2 / 64))
    ∷ char_at (bit_and b2 63)
    ∷ base64_chunks s

unfoldable pub base64url_encode : Bytes → Bytes
base64url_encode bytes = map url_safe (base64_chunks bytes)

unfoldable pub require_owner : OauthApplication → AuthenticatedUser → Result (Unit {0})
require_owner app actor = if not (app.owner_user_id == actor.user_id) then err not_found else ok tt

abbrev pub prefixed : Bytes → Bytes → Bytes
prefixed prefix random = prefix ++ base64url_encode random

-- The checks of `create_app` and `update_app`.
unfoldable pub check_app : Bytes → List Bytes → Result (Unit {0})
check_app name [] = err validation
check_app name (u ∷ us) = if is_empty (trim (chars name)) then err validation else ok tt

unfoldable pub create_app :
    AuthConfig → AuthenticatedUser → Bytes → List Bytes → Bytes → M (Bytes × OauthApplication)
create_app c actor name redirect_uris random = do
  lift (check_app name redirect_uris)
  let raw_secret : Bytes = prefixed (codes "hzcs_") random
  id ← new_v4
  client_id ← new_v4
  now ← utc_now
  let app : OauthApplication = record {
    id = id;
    owner_user_id = actor.user_id;
    name = name;
    client_id = client_id;
    client_secret_hash = sha256_hex c raw_secret;
    redirect_uris = redirect_uris;
    created_at = now;
    revoked_at = none;
  }
  OauthAppRepo.create app
  pure (raw_secret, app)

unfoldable pub list_apps : AuthenticatedUser → M (List OauthApplication)
list_apps actor = OauthAppRepo.list_for_user actor.user_id

-- The application of this id, when the actor owns it.
unfoldable pub get_app : AuthenticatedUser → Uuid → M OauthApplication
get_app actor app_id = do
  found ← OauthAppRepo.get app_id
  app ← lift (ok_or found not_found)
  lift (require_owner app actor)
  pure app

unfoldable pub update_app : AuthenticatedUser → Uuid → Bytes → List Bytes → M OauthApplication
update_app actor app_id name redirect_uris = do
  lift (check_app name redirect_uris)
  app ← get_app actor app_id
  OauthAppRepo.update_app app_id name redirect_uris
  updated ← OauthAppRepo.get app_id
  lift (ok_or updated internal)

unfoldable pub delete_app : AuthenticatedUser → Uuid → M (Unit {0})
delete_app actor app_id = do app ← get_app actor app_id; OauthAppRepo.revoke app_id

unfoldable pub rotate_secret : AuthConfig → AuthenticatedUser → Uuid → Bytes → M Bytes
rotate_secret c actor app_id random = do
  app ← get_app actor app_id
  let raw_secret : Bytes = prefixed (codes "hzcs_") random
  OauthAppRepo.rotate_secret app_id (sha256_hex c raw_secret)
  OauthTokenRepo.revoke_all_for_app app_id
  pure raw_secret

-- `redirect_uris.contains(&redirect_uri)`
abbrev pub registered : Bytes → OauthApplication → Bool
registered redirect_uri app = any (λ u. bytes_eq u redirect_uri) app.redirect_uris

unfoldable pub validate_authorize_params : Bytes → Uuid → Bytes → M OauthApplication
validate_authorize_params response_type client_id redirect_uri =
    if not (bytes_eq response_type (codes "code")) then lift (err validation) else do
      found ← OauthAppRepo.find_by_client_id client_id
      app ← lift (ok_or found not_found)
      if is_some app.revoked_at
          then lift (err not_found)
          else if not (registered redirect_uri app)
          then lift (err validation)
          else pure app

-- Ten minutes.
abbrev pub code_ttl : ℕ
code_ttl = 10 * 60 * 1000

unfoldable pub authorize_post :
    AuthConfig → (Bytes → Bytes) → AuthenticatedUser → Uuid → Bytes → Bytes → Bool → Bytes → M Bytes
authorize_post c encode actor client_id redirect_uri state approved random = do
  app ← validate_authorize_params (codes "code") client_id redirect_uri
  if not approved
      then pure (redirect_uri ++ (codes "?error=access_denied&state=" ++ encode state))
      else do
        let raw_code : Bytes = base64url_encode random
        id ← new_v4
        now ← utc_now
        OauthCodeRepo.create (record {
          id = id;
          app_id = app.id;
          user_id = actor.user_id;
          code_hash = sha256_hex c raw_code;
          redirect_uri = redirect_uri;
          expires_at = now + code_ttl;
          used_at = none;
        })
        pure (
            redirect_uri
            ++ (codes "?code=" ++ (encode raw_code ++ (codes "&state=" ++ encode state))))

pub record TokenRequest : Type 0 where
  pub grant_type : Bytes
  pub code : Option Bytes
  pub redirect_uri : Option Bytes
  pub refresh_token : Option Bytes
  pub client_id : Uuid
  pub client_secret : Bytes

pub record TokenPair : Type 0 where
  pub access_token : Bytes
  pub refresh_token : Bytes

unfoldable pub issue_refresh_token : AuthConfig → Uuid → Uuid → Bytes → M Bytes
issue_refresh_token c app_id user_id random = do
  let raw : Bytes = prefixed (codes "hzrt_") random
  id ← new_v4
  now ← utc_now
  OauthTokenRepo.create (record {
    id = id;
    app_id = app_id;
    user_id = user_id;
    token_hash = sha256_hex c raw;
    created_at = now;
    last_used_at = none;
    revoked_at = none;
  })
  pure raw

unfoldable pub code_grant : AuthConfig → OauthApplication → TokenRequest → Bytes → M (Uuid × Bytes)
code_grant c app body random = do
  raw_code ← lift (ok_or body.code validation)
  redirect_uri ← lift (ok_or body.redirect_uri validation)
  consumed ← OauthCodeRepo.consume (sha256_hex c raw_code)
  code ← lift (ok_or consumed validation)
  if not (code.app_id == app.id)
      then lift (err unauthorized)
      else if not (bytes_eq code.redirect_uri redirect_uri)
      then lift (err validation)
      else do
        raw_token ← issue_refresh_token c app.id code.user_id random
        pure (code.user_id, raw_token)

unfoldable pub refresh_grant :
    AuthConfig → OauthApplication → TokenRequest → Bytes → M (Uuid × Bytes)
refresh_grant c app body random = do
  raw_rt ← lift (ok_or body.refresh_token validation)
  found ← OauthTokenRepo.find_by_hash (sha256_hex c raw_rt)
  rt ← lift (ok_or found unauthorized)
  if is_some rt.revoked_at || not (rt.app_id == app.id) then lift (err unauthorized) else do
    OauthTokenRepo.revoke rt.id
    raw_token ← issue_refresh_token c app.id rt.user_id random
    pure (rt.user_id, raw_token)

unfoldable pub granted : AuthConfig → OauthApplication → TokenRequest → Bytes → M (Uuid × Bytes)
granted c app body random =
    if bytes_eq body.grant_type (codes "authorization_code")
    then code_grant c app body random
    else if bytes_eq body.grant_type (codes "refresh_token")
    then refresh_grant c app body random
    else lift (err validation)

-- The application, by its id and its secret.
unfoldable pub check_client : AuthConfig → OauthApplication → Bytes → Result (Unit {0})
check_client c app client_secret =
    if is_some app.revoked_at
    then err unauthorized
    else if not (bytes_eq (sha256_hex c client_secret) app.client_secret_hash)
    then err unauthorized
    else ok tt

-- The client's id stands as a text in the token.
unfoldable pub token : AuthConfig → (Uuid → String) → TokenRequest → Bytes → M TokenPair
token c id_text body random = do
  found ← OauthAppRepo.find_by_client_id body.client_id
  app ← lift (ok_or found unauthorized)
  lift (check_client c app body.client_secret)
  grant ← granted c app body random
  owner ← UserRepo.get grant.0
  user ← lift (ok_or owner unauthorized)
  now ← utc_now
  access_token ←
      lift (
        generate_oauth_access_token c.jwt c.secret user.id user.email (id_text app.client_id) []
          now)
  pure (record { access_token = access_token; refresh_token = grant.1 })

abbrev pub revoke_found : OauthApplication → Option OauthRefreshToken → M (Unit {0})
revoke_found app none = pure tt
revoke_found app (some rt) =
    if rt.app_id == app.id
    then if is_some rt.revoked_at then pure tt else OauthTokenRepo.revoke rt.id
    else pure tt

unfoldable pub revoke : AuthConfig → Bytes → Uuid → Bytes → M (Unit {0})
revoke c refresh_token client_id client_secret = do
  found ← OauthAppRepo.find_by_client_id client_id
  app ← lift (ok_or found unauthorized)
  if not (bytes_eq (sha256_hex c client_secret) app.client_secret_hash)
      then lift (err unauthorized)
      else do rt ← OauthTokenRepo.find_by_hash (sha256_hex c refresh_token); revoke_found app rt
