-- ===== src/Db/UserRepo.antt =====
-- Users (backend/src/db/user_repo.rs), without the profile fields. `upsert_oidc_identity` is not
-- modelled.
use hzelmaim.Prelude.{
  Bool, ◌||◌, Option, none, some, [], ◌∷◌, ◌++◌, String, ◌==◌, str_eq, any, find_row, if◌then◌else◌,
}
use hzelmaim.Models.User.{Uuid, UserRecord, UserRole, admin, user, active}
use hzelmaim.World.{M, select, execute}

unfoldable pub role_str : UserRole → String
role_str admin = "admin"
role_str user = "user"

unfoldable pub get : Uuid → M (Option UserRecord)
get user_id = select (λ d. find_row (λ u. u.id == user_id) d.users)

unfoldable pub get_by_email : String → M (Option UserRecord)
get_by_email email = select (λ d. find_row (λ u. str_eq u.email email) d.users)

-- PRIMARY KEY (id), UNIQUE (email).
abbrev pub user_conflict : UserRecord → UserRecord → Bool
user_conflict a b = b.id == a.id || str_eq b.email a.email

-- A new user is active, whatever the record says.
unfoldable pub create : UserRecord → M (Unit {0})
create r = execute λ d.
    if any (user_conflict r) d.users
    then none
    else some (record d { users = d.users ++ record r { status = active } ∷ [] })
