-- ===== src/Db/ApiTokenRepo.antt =====
-- Personal access tokens (backend/src/db/api_token_repo.rs).
use hzelmaim.Prelude.{
  Bool, true, false, ◌&&◌, ◌||◌, Option, none, some, List, [], ◌∷◌, ◌++◌, ◌==◌, leb, any, find_row,
  where_rows, update_rows, order_by, if◌then◌else◌,
}
use hzelmaim.Prelude.Bytes.{Bytes, bytes_eq}
use hzelmaim.Models.User.{Uuid}
use hzelmaim.Models.Session.{ApiTokenRecord}
use hzelmaim.World.{M, select, execute, execute_returning, update, utc_now, ◌>>=◌}

unfoldable pub find_by_hash : Bytes → M (Option ApiTokenRecord)
find_by_hash hash = select (λ d. find_row (λ t. bytes_eq t.token_hash hash) d.api_tokens)

-- PRIMARY KEY (id), UNIQUE (token_hash).
abbrev pub token_conflict : ApiTokenRecord → ApiTokenRecord → Bool
token_conflict a b = b.id == a.id || bytes_eq b.token_hash a.token_hash

unfoldable pub create : ApiTokenRecord → M (Unit {0})
create r = execute λ d.
    if any (token_conflict r) d.api_tokens
    then none
    else some (record d {
      api_tokens = d.api_tokens ++ record r { last_used_at = none; revoked_at = none } ∷ [];
    })

-- IS NULL
abbrev pub is_null : {A : Type 0} → Option A → Bool
is_null none = true
is_null (some a) = false

abbrev pub is_active_token_of : Uuid → Uuid → ApiTokenRecord → Bool
is_active_token_of token_id user_id t =
    t.id == token_id && t.user_id == user_id && is_null t.revoked_at

-- Whether a row was changed.
unfoldable pub revoke : Uuid → Uuid → M Bool
revoke token_id user_id = do
  now ← utc_now
  execute_returning λ d. (
    any (is_active_token_of token_id user_id) d.api_tokens,
    record d {
      api_tokens =
          update_rows (is_active_token_of token_id user_id)
            (λ t. record t { revoked_at = some now }) d.api_tokens;
    },
  )

unfoldable pub list_for_user : Uuid → M (List ApiTokenRecord)
list_for_user user_id = select λ d.
    order_by (λ a b. leb b.created_at a.created_at)
      (where_rows (λ t. t.user_id == user_id && is_null t.revoked_at) d.api_tokens)

unfoldable pub touch : Uuid → M (Unit {0})
touch token_id = do
  now ← utc_now
  update λ d. record d {
    api_tokens =
        update_rows (λ t. t.id == token_id) (λ t. record t { last_used_at = some now })
          d.api_tokens;
  }
