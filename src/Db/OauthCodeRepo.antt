-- ===== src/Db/OauthCodeRepo.antt =====
-- Authorization codes (`PgOAuthCodeRepo` of backend/src/db/oauth_repo.rs).
use hzelmaim.Prelude.{
  Bool, ◌&&◌, ◌||◌, Option, none, some, [], ◌∷◌, ◌++◌, ◌==◌, ltb, any, find_row, update_rows,
  if◌then◌else◌,
}
use mathlib.Core.Option
use hzelmaim.Prelude.Bytes.{Bytes, bytes_eq}
use hzelmaim.Models.User.{DateTime}
use hzelmaim.Models.Oauth.{OauthAuthorizationCode}
use hzelmaim.World.{M, execute, execute_returning, utc_now, ◌>>=◌}
use hzelmaim.Db.ApiTokenRepo.{is_null}

-- PRIMARY KEY (id), UNIQUE (code_hash).
abbrev pub code_conflict : OauthAuthorizationCode → OauthAuthorizationCode → Bool
code_conflict a b = b.id == a.id || bytes_eq b.code_hash a.code_hash

unfoldable pub create : OauthAuthorizationCode → M (Unit {0})
create code = execute λ d.
    if any (code_conflict code) d.oauth_authorization_codes
    then none
    else some (record d {
      oauth_authorization_codes =
          d.oauth_authorization_codes ++ record code { used_at = none } ∷ [];
    })

abbrev pub is_usable : Bytes → DateTime → OauthAuthorizationCode → Bool
is_usable code_hash now c =
    bytes_eq c.code_hash code_hash && is_null c.used_at && ltb now c.expires_at

abbrev pub mark_used : DateTime → OauthAuthorizationCode → OauthAuthorizationCode
mark_used now c = record c { used_at = some now }

unfoldable pub consume : Bytes → M (Option OauthAuthorizationCode)
consume code_hash = do
  now ← utc_now
  execute_returning λ d. (
    Option.map (mark_used now) (find_row (is_usable code_hash now) d.oauth_authorization_codes),
    record d {
      oauth_authorization_codes =
          update_rows (is_usable code_hash now) (mark_used now) d.oauth_authorization_codes;
    },
  )
