-- ===== src/Handlers/Oauth/Grants.antt =====
-- For whom the token endpoint issues tokens.
use hzelmaim.Prelude.{
  ℕ, String, ◌+◌, ◌≤◌, not, ◌≡◌, refl, ap, ◌∙◌, Bool, true, false, ◌||◌, Option, none, some, [],
  find_row, update_rows, ◌==◌, arith,
}
use mathlib.Core.Option
use hzelmaim.Prelude.Bytes.{Bytes, bytes_eq}
use hzelmaim.Prelude.Text.{codes}
use hzelmaim.Api.{Result, ok, ok_or-some, validation}
use hzelmaim.Models.User.{Uuid, DateTime, UserRecord}
use hzelmaim.Models.Oauth.{OauthApplication, OauthAuthorizationCode, OauthRefreshToken}
use hzelmaim.World.{World, Db, tick}
use hzelmaim.World.After.{
  After, After-pure, After-bind, After-lift_bind, After-refused, After-select,
  After-execute_returning, After-update, After-utc_now, After-if,
}
use hzelmaim.Auth.Session.{is_some}
use hzelmaim.Auth.Jwt.{generate_oauth_access_token}
use hzelmaim.Auth.Resolver.{AuthConfig}
use hzelmaim.Auth.Resolver.Identity.{not_none}
use hzelmaim.Db.OauthAppRepo
use hzelmaim.Db.OauthCodeRepo
use hzelmaim.Db.OauthCodeRepo.{is_usable, mark_used}
use hzelmaim.Db.OauthTokenRepo
use hzelmaim.Db.OauthTokenRepo.{is_live_token, refresh_conflict}
use hzelmaim.Db.UserRepo
use hzelmaim.Handlers.Oauth.{
  TokenRequest, TokenPair, sha256_hex, code_grant, refresh_grant, granted, check_client, token,
}
use hzelmaim.Handlers.Oauth.Issue.{Told, Issued, After-then, issue_refresh_token_lem, split_or}

-- What a token is granted for while a request runs: an authorization code that is stored, not used
-- and not expired, of the application and for the same URI, which is used up, or a refresh
-- token that is stored, not revoked, and of the application, which is revoked.
pub data Granted (c : AuthConfig) (app : OauthApplication) (body : TokenRequest) (w : World)
    : Uuid × Bytes → Db → Type 0 where
  by_code :
      {grant : Uuid × Bytes} {d : Db} (raw_code redirect_uri : Bytes) (step : ℕ)
      (row : OauthAuthorizationCode)
      → bytes_eq body.grant_type (codes "authorization_code") ≡ true
      → body.code ≡ some raw_code
      → body.redirect_uri ≡ some redirect_uri
      → w.steps ≤ step
      → find_row
          (is_usable (sha256_hex c raw_code) (w.env.time step + w.slept))
          w.db.oauth_authorization_codes
        ≡ some row
      → row.app_id ≡ app.id
      → bytes_eq row.redirect_uri redirect_uri ≡ true
      → row.user_id ≡ grant.0
      → Issued c app.id grant.0
          (record w.db {
            oauth_authorization_codes =
                update_rows
                  (is_usable (sha256_hex c raw_code) (w.env.time step + w.slept))
                  (mark_used (w.env.time step + w.slept))
                  w.db.oauth_authorization_codes;
          })
          grant.1
          d
      → Granted c app body w grant d
  by_refresh :
      {grant : Uuid × Bytes} {d : Db} (raw_rt : Bytes) (now : DateTime) (row : OauthRefreshToken)
      → bytes_eq body.grant_type (codes "authorization_code") ≡ false
      → body.refresh_token ≡ some raw_rt
      → find_row (λ t. bytes_eq t.token_hash (sha256_hex c raw_rt)) w.db.oauth_refresh_tokens
        ≡ some row
      → row.revoked_at ≡ none
      → row.app_id ≡ app.id
      → row.user_id ≡ grant.0
      → Issued c app.id grant.0
          (record w.db {
            oauth_refresh_tokens =
                update_rows
                  (is_live_token row.id)
                  (λ t. record t { revoked_at = some now })
                  w.db.oauth_refresh_tokens;
          })
          grant.1
          d
      → Granted c app body w grant d

map-some :
    {A B : Type 0} (f : A → B) (o : Option A) (b : B)
    → Option.map f o ≡ some b
    → (a : A) × (o ≡ some a) × (f a ≡ b)
map-some f none b h = absurd (cc)
map-some f (some a) b h = (a, refl, cc)

same : (n m : ℕ) → not (n == m) ≡ false → n ≡ m
same n m h = ground arith

holds_of : (b : Bool) → not b ≡ false → b ≡ true
holds_of b h = ground arith

module _ (c : AuthConfig) (app : OauthApplication) (body : TokenRequest) (random : Bytes)
    (w : World) where
  abbrev Q : Result (Uuid × Bytes) → World → Type 0
  Q = Told (λ g w'. Granted c app body w g w'.db)

  code_grant_lem :
      bytes_eq body.grant_type (codes "authorization_code") ≡ true
      → After (code_grant c app body random) w Q
  unfolding code_grant OauthCodeRepo.consume
  code_grant_lem kind =
      After-lift_bind (λ e. tt)
        λ raw_code given.
          After-lift_bind (λ e. tt)
            λ redirect_uri asked. After-bind _ _ _ _ (
              After-bind _ _ _ _ (
                After-utc_now _ _ (
                  After-execute_returning _ _ _ tt (
                    After-lift_bind (λ e. tt)
                      λ code used.
                        let (row, found, marked) = map-some _ _ code (ok_or-some _ _ code used) in
                        After-if _ _ _ _ _ (λ _. After-refused _ _ _ tt)
                          λ (of_app : not (code.app_id == app.id) ≡ false).
                            After-if _ _ _ _ _ (λ _. After-refused _ _ _ tt)
                              λ (same_uri : not (bytes_eq code.redirect_uri redirect_uri) ≡ false).
                                After-then _
                                  (issue_refresh_token_lem c app.id code.user_id random _)
                                  (λ e w'. tt)
                                  λ raw w' issued. After-pure _ _ _ (
                                    by_code raw_code redirect_uri w.steps row kind
                                      (ok_or-some _ _ _ given) (ok_or-some _ _ _ asked)
                                      (omega arith) found
                                      (ap (λ (r : OauthAuthorizationCode). r.app_id) marked
                                        ∙ same _ _ of_app)
                                      (ap
                                          (λ (r : OauthAuthorizationCode).
                                            bytes_eq r.redirect_uri redirect_uri)
                                          marked
                                        ∙ holds_of _ same_uri)
                                      (ap (λ (r : OauthAuthorizationCode). r.user_id) marked)
                                      issued)))))

  refresh_grant_lem :
      bytes_eq body.grant_type (codes "authorization_code") ≡ false
      → After (refresh_grant c app body random) w Q
  unfolding refresh_grant OauthTokenRepo.find_by_hash OauthTokenRepo.revoke
  refresh_grant_lem kind =
      After-lift_bind (λ e. tt)
        λ raw_rt given. After-bind _ _ _ _ (
          After-select _ _ _ tt (
            After-lift_bind (λ e. tt)
              λ rt found.
                After-if _ _ _ _ _ (λ _. After-refused _ _ _ tt)
                  λ (passed : (is_some rt.revoked_at || not (rt.app_id == app.id)) ≡ false).
                    let (live, of_app) =
                      split_or (is_some rt.revoked_at) (not (rt.app_id == app.id)) passed in
                    After-bind _ _ _ _ (
                      After-bind _ _ _ _ (
                        After-utc_now _ _ (
                          After-update _ _ _ tt (
                            After-then _ (issue_refresh_token_lem c app.id rt.user_id random _)
                              (λ e w'. tt)
                              λ raw w' issued. After-pure _ _ _ (
                                by_refresh raw_rt _ rt kind (ok_or-some _ _ _ given)
                                  (ok_or-some _ _ _ found) (not_none _ live) (same _ _ of_app) refl
                                  issued)))))))

  granted_lem : After (granted c app body random) w Q
  unfolding granted
  granted_lem =
      After-if _ _ _ _ _ (λ kind. code_grant_lem kind)
        λ kind.
          After-if _ _ (bytes_eq body.grant_type (codes "refresh_token")) _ _
            (λ _. refresh_grant_lem kind) (λ _. After-refused _ _ validation tt)

check_client_lem :
    (c : AuthConfig) (app : OauthApplication) (client_secret : Bytes) (u : Unit {0})
    → check_client c app client_secret ≡ ok u
    → (is_some app.revoked_at ≡ false)
      × (bytes_eq (sha256_hex c client_secret) app.client_secret_hash ≡ true)
unfolding check_client
check_client_lem c app client_secret u h = (ground arith, ground arith)

-- The client is a stored application that is not revoked and whose secret was shown, and the
-- tokens are issued for a grant of it, the access token for the stored user of the grant.
pub record TokenIssued (c : AuthConfig) (id_text : Uuid → String) (body : TokenRequest) (w : World)
    (pair : TokenPair) (w' : World) : Type 0 where
  pub app : OauthApplication
  pub app_found : find_row (λ a. a.client_id == body.client_id) w.db.oauth_applications ≡ some app
  pub app_live : app.revoked_at ≡ none
  pub secret_shown : bytes_eq (sha256_hex c body.client_secret) app.client_secret_hash ≡ true
  pub user_id : Uuid
  pub grant : Granted c app body (tick w) (user_id, pair.refresh_token) w'.db
  pub user : UserRecord
  pub user_found : find_row (λ u. u.id == user_id) w'.db.users ≡ some user
  pub now : DateTime
  pub signed :
      generate_oauth_access_token c.jwt c.secret user.id user.email (id_text app.client_id) [] now
      ≡ ok pair.access_token

-- When the token endpoint answers tokens, the client is a stored application that is not
-- revoked and has shown its secret. The grant is an authorization code of that application that was
-- not used, not expired and given out for the same URI, and is used up now, or a refresh token of
-- that application that was not revoked, and is revoked now. The new refresh token is stored,
-- and the access token is signed for the user of the grant and that application.
pub token_lem :
    (c : AuthConfig) (id_text : Uuid → String) (body : TokenRequest) (random : Bytes) (w : World)
    → After (token c id_text body random) w (Told (TokenIssued c id_text body w))
unfolding token OauthAppRepo.find_by_client_id UserRepo.get
token_lem c id_text body random w = After-bind _ w _ _ (
    After-select _ w _ tt (
      After-lift_bind (λ e. tt)
        λ app known.
          After-lift_bind (λ e. tt)
            λ u checked.
              After-then _ (granted_lem c app body random (tick w)) (λ e w'. tt)
                λ grant v evidence. After-bind _ _ _ _ (
                  After-select _ _ _ tt (
                    After-lift_bind (λ e. tt)
                      λ user present. After-bind _ _ _ _ (
                        After-utc_now _ _ (
                          After-lift_bind (λ e. tt)
                            λ access_token signed.
                              let (live, shown) =
                                check_client_lem c app body.client_secret u checked in
                              After-pure _ _ _ (record {
                                app = app;
                                app_found = ok_or-some _ _ _ known;
                                app_live = not_none _ live;
                                secret_shown = shown;
                                user_id = grant.0;
                                grant = evidence;
                                user = user;
                                user_found = ok_or-some _ _ _ present;
                                now = _;
                                signed = signed;
                              })))))))
