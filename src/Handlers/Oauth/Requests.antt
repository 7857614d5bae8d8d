-- ===== src/Handlers/Oauth/Requests.antt =====
-- The requests of the provider leave a used code used.
use hzelmaim.Prelude.{String, ◌∙◌, Bool, Option, none, some, List, [], ◌∷◌, any}
use hzelmaim.Prelude.Bytes.{Bytes}
use hzelmaim.Models.User.{Uuid, AuthenticatedUser}
use hzelmaim.Models.Oauth.{OauthApplication, OauthAuthorizationCode, OauthRefreshToken}
use hzelmaim.World.{World}
use hzelmaim.World.Keeps.{
  Keeps, Keeps-bind, Keeps-utc_now, Keeps-update, Keeps-checked, Keeps-execute_returning,
  keeps_rules,
}
use hzelmaim.Auth.Resolver.{AuthConfig}
use hzelmaim.Db.OauthAppRepo
use hzelmaim.Db.OauthAppRepo.{app_conflict}
use hzelmaim.Db.OauthCodeRepo
use hzelmaim.Db.OauthCodeRepo.{is_usable, mark_used, code_conflict}
use hzelmaim.Db.OauthTokenRepo
use hzelmaim.Db.OauthTokenRepo.{refresh_conflict}
use hzelmaim.Db.UserRepo
use hzelmaim.Handlers.Oauth.{
  TokenRequest, code_grant, create_app, delete_app, get_app, granted, issue_refresh_token,
  refresh_grant, revoke, revoke_found, rotate_secret, token, update_app, authorize_post,
  validate_authorize_params,
}
use hzelmaim.Handlers.Oauth.Codes.{Spent, Spent-snoc, Spent-mark}

module _ (h : Bytes) where
  consume-Spent : (code_hash : Bytes) → Keeps (Spent h) (OauthCodeRepo.consume code_hash)
  unfolding OauthCodeRepo.consume
  consume-Spent code_hash = Keeps-bind _ _ Keeps-utc_now λ now. Keeps-execute_returning _ λ d spent.
      let (kept, closed) = Spent-mark h (is_usable code_hash now) now d.oauth_authorization_codes in
      (kept ∙ spent.0, closed spent.1)

  create_code-Spent : (code : OauthAuthorizationCode) → Keeps (Spent h) (OauthCodeRepo.create code)
  unfolding OauthCodeRepo.create
  create_code-Spent code =
      Keeps-checked (λ d. any (code_conflict code) d.oauth_authorization_codes) _
        λ d free spent. Spent-snoc h code d.oauth_authorization_codes free spent.0 spent.1

  create_refresh_token-Spent : (t : OauthRefreshToken) → Keeps (Spent h) (OauthTokenRepo.create t)
  unfolding OauthTokenRepo.create
  create_refresh_token-Spent t =
      Keeps-checked (λ d. any (refresh_conflict t) d.oauth_refresh_tokens) _ λ d free spent. spent

  revoke_token-Spent : (id : Uuid) → Keeps (Spent h) (OauthTokenRepo.revoke id)
  unfolding OauthTokenRepo.revoke
  revoke_token-Spent id = Keeps-bind _ _ Keeps-utc_now λ now. Keeps-update _ λ d spent. spent

  revoke_all-Spent : (id : Uuid) → Keeps (Spent h) (OauthTokenRepo.revoke_all_for_app id)
  unfolding OauthTokenRepo.revoke_all_for_app
  revoke_all-Spent id = Keeps-bind _ _ Keeps-utc_now λ now. Keeps-update _ λ d spent. spent

  create_app-Spent : (app : OauthApplication) → Keeps (Spent h) (OauthAppRepo.create app)
  unfolding OauthAppRepo.create
  create_app-Spent app =
      Keeps-checked (λ d. any (app_conflict app) d.oauth_applications) _ λ d free spent. spent

  update_app-Spent :
      (id : Uuid) (name : Bytes) (uris : List Bytes)
      → Keeps (Spent h) (OauthAppRepo.update_app id name uris)
  unfolding OauthAppRepo.update_app
  update_app-Spent id name uris = Keeps-update _ λ d spent. spent

  rotate_secret-Spent :
      (id : Uuid) (hash : Bytes) → Keeps (Spent h) (OauthAppRepo.rotate_secret id hash)
  unfolding OauthAppRepo.rotate_secret
  rotate_secret-Spent id hash = Keeps-update _ λ d spent. spent

  revoke_app-Spent : (id : Uuid) → Keeps (Spent h) (OauthAppRepo.revoke id)
  unfolding OauthAppRepo.revoke
  revoke_app-Spent id = Keeps-bind _ _ Keeps-utc_now λ now.
      Keeps-bind _ _ (Keeps-update _ λ d spent. spent)
        λ u. Keeps-bind _ _ Keeps-utc_now λ then_now. Keeps-update _ λ d spent. spent

ruleset spent_rules = (
  keeps_rules, consume-Spent, create_code-Spent, create_refresh_token-Spent, revoke_token-Spent,
  revoke_all-Spent, create_app-Spent, update_app-Spent, rotate_secret-Spent, revoke_app-Spent,
)

-- The requests of the provider that write, with the bytes that they draw.
pub data OauthRequest : Type 0 where
  register : AuthenticatedUser → Bytes → List Bytes → Bytes → OauthRequest
  change : AuthenticatedUser → Uuid → Bytes → List Bytes → OauthRequest
  remove : AuthenticatedUser → Uuid → OauthRequest
  rotate : AuthenticatedUser → Uuid → Bytes → OauthRequest
  consent : AuthenticatedUser → Uuid → Bytes → Bytes → Bool → Bytes → OauthRequest
  exchange : TokenRequest → Bytes → OauthRequest
  give_up : Bytes → Uuid → Bytes → OauthRequest

module _ (c : AuthConfig) (encode : Bytes → Bytes) (id_text : Uuid → String) where
  unfoldable pub ask : OauthRequest → World → World
  ask (register actor name uris random) w = (create_app c actor name uris random w).1
  ask (change actor id name uris) w = (update_app actor id name uris w).1
  ask (remove actor id) w = (delete_app actor id w).1
  ask (rotate actor id random) w = (rotate_secret c actor id random w).1
  ask (consent actor client_id uri state approved random) w =
      (authorize_post c encode actor client_id uri state approved random w).1
  ask (exchange body random) w = (token c id_text body random w).1
  ask (give_up raw client_id secret) w = (revoke c raw client_id secret w).1

  unfoldable pub ask_all : List OauthRequest → World → World
  ask_all [] w = w
  ask_all (r ∷ rs) w = ask_all rs (ask r w)

  module _ (h : Bytes) where
    register-Spent :
        (actor : AuthenticatedUser) (name : Bytes) (uris : List Bytes) (random : Bytes)
        → Keeps (Spent h) (create_app c actor name uris random)
    unfolding create_app
    register-Spent actor name uris random = search spent_rules depth 40

    change-Spent :
        (actor : AuthenticatedUser) (id : Uuid) (name : Bytes) (uris : List Bytes)
        → Keeps (Spent h) (update_app actor id name uris)
    unfolding update_app get_app OauthAppRepo.get
    change-Spent actor id name uris = search spent_rules depth 40

    remove-Spent : (actor : AuthenticatedUser) (id : Uuid) → Keeps (Spent h) (delete_app actor id)
    unfolding delete_app get_app OauthAppRepo.get
    remove-Spent actor id = search spent_rules depth 40

    rotate-Spent :
        (actor : AuthenticatedUser) (id : Uuid) (random : Bytes)
        → Keeps (Spent h) (rotate_secret c actor id random)
    unfolding rotate_secret get_app OauthAppRepo.get
    rotate-Spent actor id random = search spent_rules depth 40

    consent-Spent :
        (actor : AuthenticatedUser) (client_id : Uuid) (uri state : Bytes) (approved : Bool)
        (random : Bytes)
        → Keeps (Spent h) (authorize_post c encode actor client_id uri state approved random)
    unfolding authorize_post validate_authorize_params OauthAppRepo.find_by_client_id
    consent-Spent actor client_id uri state approved random = search spent_rules depth 60

    issue-Spent :
        (app_id user_id : Uuid) (random : Bytes)
        → Keeps (Spent h) (issue_refresh_token c app_id user_id random)
    unfolding issue_refresh_token
    issue-Spent app_id user_id random = search spent_rules depth 40

    granted-Spent :
        (app : OauthApplication) (body : TokenRequest) (random : Bytes)
        → Keeps (Spent h) (granted c app body random)
    unfolding granted code_grant refresh_grant OauthTokenRepo.find_by_hash
    granted-Spent app body random = search (spent_rules, issue-Spent) depth 60

    exchange-Spent :
        (body : TokenRequest) (random : Bytes) → Keeps (Spent h) (token c id_text body random)
    unfolding token OauthAppRepo.find_by_client_id UserRepo.get
    exchange-Spent body random = search (spent_rules, granted-Spent) depth 60

    found-Spent :
        (app : OauthApplication) (o : Option OauthRefreshToken)
        → Keeps (Spent h) (revoke_found app o)
    found-Spent app none = search spent_rules depth 20
    found-Spent app (some rt) = search spent_rules depth 20

    give_up-Spent :
        (raw : Bytes) (client_id : Uuid) (secret : Bytes)
        → Keeps (Spent h) (revoke c raw client_id secret)
    unfolding revoke OauthAppRepo.find_by_client_id OauthTokenRepo.find_by_hash
    give_up-Spent raw client_id secret = search (spent_rules, found-Spent) depth 40

    ask-Spent : (r : OauthRequest) (w : World) → Spent h w.db → Spent h (ask r w).db
    unfolding ask
    ask-Spent (register actor name uris random) = (register-Spent actor name uris random).at
    ask-Spent (change actor id name uris) = (change-Spent actor id name uris).at
    ask-Spent (remove actor id) = (remove-Spent actor id).at
    ask-Spent (rotate actor id random) = (rotate-Spent actor id random).at
    ask-Spent (consent actor client_id uri state approved random) =
        (consent-Spent actor client_id uri state approved random).at
    ask-Spent (exchange body random) = (exchange-Spent body random).at
    ask-Spent (give_up raw client_id secret) = (give_up-Spent raw client_id secret).at

    pub ask_all-Spent :
        (rs : List OauthRequest) (w : World) → Spent h w.db → Spent h (ask_all rs w).db
    unfolding ask_all
    ask_all-Spent [] w spent = spent
    ask_all-Spent (r ∷ rs) w spent = ask_all-Spent rs (ask r w) (ask-Spent r w spent)
