-- ===== src/Db/OauthTokenRepo.antt =====
-- Refresh tokens of OAuth applications (`PgOAuthTokenRepo` of backend/src/db/oauth_repo.rs).
use hzelmaim.Prelude.{
  Bool, ◌&&◌, ◌||◌, Option, none, some, [], ◌∷◌, ◌++◌, ◌==◌, any, find_row, update_rows,
  if◌then◌else◌,
}
use hzelmaim.Prelude.Bytes.{Bytes, bytes_eq}
use hzelmaim.Models.User.{Uuid}
use hzelmaim.Models.Oauth.{OauthRefreshToken}
use hzelmaim.World.{M, select, execute, update, utc_now, ◌>>=◌}
use hzelmaim.Db.ApiTokenRepo.{is_null}
use hzelmaim.Db.OauthAppRepo.{is_live_token_of}

-- PRIMARY KEY (id), UNIQUE (token_hash).
abbrev pub refresh_conflict : OauthRefreshToken → OauthRefreshToken → Bool
refresh_conflict a b = b.id == a.id || bytes_eq b.token_hash a.token_hash

unfoldable pub create : OauthRefreshToken → M (Unit {0})
create token = execute λ d.
    if any (refresh_conflict token) d.oauth_refresh_tokens
    then none
    else some (record d {
      oauth_refresh_tokens =
          d.oauth_refresh_tokens ++ record token { last_used_at = none; revoked_at = none } ∷ [];
    })

unfoldable pub find_by_hash : Bytes → M (Option OauthRefreshToken)
find_by_hash hash = select (λ d. find_row (λ t. bytes_eq t.token_hash hash) d.oauth_refresh_tokens)

abbrev pub is_live_token : Uuid → OauthRefreshToken → Bool
is_live_token token_id t = t.id == token_id && is_null t.revoked_at

unfoldable pub revoke : Uuid → M (Unit {0})
revoke token_id = do
  now ← utc_now
  update λ d. record d {
    oauth_refresh_tokens =
        update_rows (is_live_token token_id) (λ t. record t { revoked_at = some now })
          d.oauth_refresh_tokens;
  }

unfoldable pub revoke_all_for_app : Uuid → M (Unit {0})
revoke_all_for_app app_id = do
  now ← utc_now
  update λ d. record d {
    oauth_refresh_tokens =
        update_rows (is_live_token_of app_id) (λ t. record t { revoked_at = some now })
          d.oauth_refresh_tokens;
  }

unfoldable pub touch : Uuid → M (Unit {0})
touch token_id = do
  now ← utc_now
  update λ d. record d {
    oauth_refresh_tokens =
        update_rows (λ t. t.id == token_id) (λ t. record t { last_used_at = some now })
          d.oauth_refresh_tokens;
  }
