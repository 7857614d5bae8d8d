-- ===== src/Examples/Oauth.antt =====
-- The OAuth provider at sample values.
use hzelmaim.Prelude.{◌≡◌, ◌≢◌, refl, none, some, List, [], ◌∷◌, String}
use hzelmaim.Prelude.Bytes.{Bytes, lower_hex}
use hzelmaim.Prelude.Text.{codes}
use hzelmaim.Api.{ok}
use hzelmaim.Models.User.{Uuid}
use hzelmaim.Models.Oauth.{OauthApplication, OauthAuthorizationCode}
use hzelmaim.World.{World, ◌>>=◌, pure, lift, select, execute, execute_returning, utc_now, new_v4}
use hzelmaim.World.After.{After}
use hzelmaim.Auth.Jwt.{generate_oauth_access_token}
use hzelmaim.Auth.Resolver.{AuthConfig}
use hzelmaim.Db.OauthAppRepo
use hzelmaim.Db.OauthCodeRepo
use hzelmaim.Db.OauthTokenRepo
use hzelmaim.Db.UserRepo
use hzelmaim.Handlers.Auth.{base64_url_encode}
use hzelmaim.Handlers.Oauth.{
  TokenRequest, TokenPair, base64_chunks, base64url_encode, check_client, code_grant, delete_app,
  granted, issue_refresh_token, refresh_grant, rotate_secret, sha256_hex, token, update_app,
}
use hzelmaim.Handlers.Oauth.Encoding.{base64url_encode-base64_url_encode}
use hzelmaim.Handlers.Oauth.Issue.{Told}
use hzelmaim.Handlers.Oauth.Grants.{TokenIssued, token_lem}
use hzelmaim.Handlers.Oauth.Owners.{AppChanged, app_changes_lem}
use hzelmaim.Handlers.Oauth.Replay.{exchanged_once}
use hzelmaim.Handlers.Oauth.Requests.{OauthRequest, exchange, rotate, ask_all}
use hzelmaim.Examples.{sample_db, sample_world, alice}
use hzelmaim.Examples.Tokens.{sample_jwt}

base64url_encode-base64_url_encode_example :
    base64url_encode (251 ∷ 255 ∷ 254 ∷ 7 ∷ []) ≡ base64_url_encode (251 ∷ 255 ∷ 254 ∷ 7 ∷ [])
base64url_encode-base64_url_encode_example =
    base64url_encode-base64_url_encode (251 ∷ 255 ∷ 254 ∷ 7 ∷ [])

-- A signature that hides the payload.
abbrev config : AuthConfig
config = record {
  jwt = record sample_jwt { encode = λ key payload. some (codes "signed") };
  sha256 = λ s. s;
  secret = codes "key";
  cookie_name = codes "sid";
}

abbrev wiki : OauthApplication
wiki = record {
  id = 80;
  owner_user_id = 1;
  name = codes "Wiki";
  client_id = 81;
  client_secret_hash = lower_hex (codes "s");
  redirect_uris = codes "u" ∷ [];
  created_at = 0;
  revoked_at = none;
}

abbrev code_of_alice : OauthAuthorizationCode
code_of_alice = record {
  id = 82;
  app_id = 80;
  user_id = 1;
  code_hash = lower_hex (codes "k");
  redirect_uri = codes "u";
  expires_at = 1000;
  used_at = none;
}

abbrev consented : World
consented = record sample_world {
  db = record sample_db {
    oauth_applications = wiki ∷ [];
    oauth_authorization_codes = code_of_alice ∷ [];
  };
}

abbrev with_code : TokenRequest
with_code = record {
  grant_type = codes "authorization_code";
  code = some (codes "k");
  redirect_uri = some (codes "u");
  refresh_token = none;
  client_id = 81;
  client_secret = codes "s";
}

abbrev id_text : Uuid → String
id_text id = "81"

token_lem_example :
    After
      (token config id_text with_code (1 ∷ []))
      consented
      (Told (TokenIssued config id_text with_code consented))
token_lem_example = token_lem config id_text with_code (1 ∷ []) consented

abbrev issued : TokenPair
issued = record { access_token = codes "signed"; refresh_token = codes "hzrt_AQ" }

exchanged : (token config id_text with_code (1 ∷ []) consented).0 ≡ ok issued
unfolding token check_client granted code_grant refresh_grant issue_refresh_token sha256_hex
    base64url_encode base64_chunks generate_oauth_access_token OauthAppRepo.find_by_client_id
    OauthCodeRepo.consume OauthTokenRepo.create UserRepo.get ◌>>=◌ pure lift select execute
    execute_returning utc_now new_v4 lower_hex
exchanged = refl

-- The code is tried again, and the secret is rotated.
abbrev afterwards : List OauthRequest
afterwards = exchange with_code (2 ∷ []) ∷ rotate alice 80 (3 ∷ []) ∷ []

exchanged_once_example :
    (token config id_text with_code (4 ∷ []) (
      ask_all config
        (λ s. s)
        id_text
        afterwards
        (token config id_text with_code (1 ∷ []) consented).1)).0
    ≢ ok issued
exchanged_once_example =
    exchanged_once config (λ s. s) id_text with_code with_code (codes "k") (1 ∷ []) (4 ∷ []) issued
      issued afterwards consented (tt, tt) refl refl exchanged refl refl

app_changes_lem_example :
    ((name : Bytes) (uris : List Bytes)
      → After (update_app alice 80 name uris) consented (λ _ w'. AppChanged alice 80 consented w'))
    × After (delete_app alice 80) consented (λ _ w'. AppChanged alice 80 consented w')
    × ((random : Bytes)
        → After
            (rotate_secret config alice 80 random)
            consented
            (λ _ w'. AppChanged alice 80 consented w'))
app_changes_lem_example = app_changes_lem config alice 80 consented
