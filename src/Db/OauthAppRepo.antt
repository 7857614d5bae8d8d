-- ===== src/Db/OauthAppRepo.antt =====
-- OAuth applications (`PgOAuthAppRepo` of backend/src/db/oauth_repo.rs).
use hzelmaim.Prelude.{
  Bool, ◌&&◌, ◌||◌, Option, none, some, List, [], ◌∷◌, ◌++◌, ◌==◌, leb, any, find_row, where_rows,
  update_rows, order_by, if◌then◌else◌,
}
use hzelmaim.Prelude.Bytes.{Bytes}
use hzelmaim.Models.User.{Uuid}
use hzelmaim.Models.Oauth.{OauthApplication, OauthRefreshToken}
use hzelmaim.World.{M, select, execute, update, utc_now, ◌>>=◌, ◌>>◌}
use hzelmaim.Db.ApiTokenRepo.{is_null}

-- PRIMARY KEY (id), UNIQUE (client_id).
abbrev pub app_conflict : OauthApplication → OauthApplication → Bool
app_conflict a b = b.id == a.id || b.client_id == a.client_id

unfoldable pub create : OauthApplication → M (Unit {0})
create app = execute λ d.
    if any (app_conflict app) d.oauth_applications
    then none
    else some (record d {
      oauth_applications = d.oauth_applications ++ record app { revoked_at = none } ∷ [];
    })

unfoldable pub get : Uuid → M (Option OauthApplication)
get app_id = select (λ d. find_row (λ a. a.id == app_id) d.oauth_applications)

unfoldable pub find_by_client_id : Uuid → M (Option OauthApplication)
find_by_client_id client_id =
    select (λ d. find_row (λ a. a.client_id == client_id) d.oauth_applications)

unfoldable pub list_for_user : Uuid → M (List OauthApplication)
list_for_user user_id = select λ d.
    order_by (λ a b. leb b.created_at a.created_at)
      (where_rows (λ a. a.owner_user_id == user_id && is_null a.revoked_at) d.oauth_applications)

abbrev pub is_live_app : Uuid → OauthApplication → Bool
is_live_app app_id a = a.id == app_id && is_null a.revoked_at

unfoldable pub update_app : Uuid → Bytes → List Bytes → M (Unit {0})
update_app app_id name redirect_uris = update λ d. record d {
  oauth_applications =
      update_rows (is_live_app app_id)
        (λ a. record a { name = name; redirect_uris = redirect_uris }) d.oauth_applications;
}

unfoldable pub rotate_secret : Uuid → Bytes → M (Unit {0})
rotate_secret app_id secret_hash = update λ d. record d {
  oauth_applications =
      update_rows (is_live_app app_id) (λ a. record a { client_secret_hash = secret_hash })
        d.oauth_applications;
}

abbrev pub is_live_token_of : Uuid → OauthRefreshToken → Bool
is_live_token_of app_id t = t.app_id == app_id && is_null t.revoked_at

-- Two statements: the tokens of the application, then the application.
unfoldable pub revoke : Uuid → M (Unit {0})
revoke app_id = do
  now ← utc_now
  update λ d. record d {
    oauth_refresh_tokens =
        update_rows (is_live_token_of app_id) (λ t. record t { revoked_at = some now })
          d.oauth_refresh_tokens;
  }
  then_now ← utc_now
  update λ d. record d {
    oauth_applications =
        update_rows (λ a. a.id == app_id) (λ a. record a { revoked_at = some then_now })
          d.oauth_applications;
  }
