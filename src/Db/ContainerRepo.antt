-- ===== src/Db/ContainerRepo.antt =====
-- Container persistence (backend/src/db/container_repo.rs), with the UNIQUE constraints of
-- backend/migrations. A transaction is one statement: if a part of it fails, none of it is kept.
use hzelmaim.Prelude.{
  ℕ, Bool, true, false, ◌&&◌, ◌||◌, Option, none, some, List, [], ◌∷◌, ◌++◌, String, ◌==◌, leb,
  str_eq, any, where_rows, find_row, update_rows, count_rows, order_by, ltb, if◌then◌else◌,
}
use mathlib.Core.Option
use hzelmaim.Models.User.{Uuid, DateTime, UserRecord}
use hzelmaim.Models.Container.{
  ContainerRecord, ContainerOwnership, ContainerInvitation, ContainerState,
  ContainerWithPermissions, AccessLevel, owner, operator, viewer, preset_owner, to_preset_name,
}
use hzelmaim.World.{M, select, execute, update, utc_now, ◌>>=◌}

abbrev pub newest_first : ContainerRecord → ContainerRecord → Bool
newest_first a b = leb b.created_at a.created_at

unfoldable pub list_all : M (List ContainerRecord)
list_all = select (λ d. order_by newest_first d.containers)

unfoldable pub get : Uuid → M (Option ContainerRecord)
get container_id = select (λ d. find_row (λ c. c.id == container_id) d.containers)

abbrev pub is_of : Uuid → Uuid → ContainerOwnership → Bool
is_of container_id user_id o = o.container_id == container_id && o.user_id == user_id

-- JOIN of `containers` and `container_ownerships`: each container with each row of the user on it.
abbrev rows_of : Uuid → List ContainerOwnership → ContainerRecord → List ContainerWithPermissions
rows_of user_id [] c = []
rows_of user_id (o ∷ os) c =
    if is_of c.id user_id o
    then (record { container = c; permissions = o.permissions }) ∷ rows_of user_id os c
    else rows_of user_id os c

abbrev join : Uuid → List ContainerOwnership → List ContainerRecord → List ContainerWithPermissions
join user_id os [] = []
join user_id os (c ∷ cs) = rows_of user_id os c ++ join user_id os cs

unfoldable pub list_for_user : Uuid → M (List ContainerWithPermissions)
list_for_user user_id = select (λ d. join user_id d.ownerships (order_by newest_first d.containers))

abbrev primary_ownership : Uuid → Uuid → ContainerOwnership
primary_ownership container_id user_id = record {
  container_id = container_id;
  user_id = user_id;
  access_level = "owner";
  is_primary = true;
  permissions = preset_owner;
}

-- PRIMARY KEY (id), UNIQUE (proxmox_ctid).
abbrev container_conflict : ContainerRecord → ContainerRecord → Bool
container_conflict a b = a.id == b.id || a.proxmox_ctid == b.proxmox_ctid

unfoldable pub create : ContainerRecord → Uuid → M (Unit {0})
create r owner_user_id = execute λ d.
    if any (container_conflict r) d.containers || any (is_of r.id owner_user_id) d.ownerships
    then none
    else some (record d {
      containers = d.containers ++ r ∷ [];
      ownerships = d.ownerships ++ primary_ownership r.id owner_user_id ∷ [];
    })

unfoldable pub update_state : Uuid → ContainerState → M (Unit {0})
update_state container_id state = update λ d. record d {
  containers =
      update_rows (λ c. c.id == container_id) (λ c. record c { state = state }) d.containers;
}

abbrev at_least : AccessLevel → String → Bool
at_least viewer s = str_eq s "owner" || str_eq s "operator" || str_eq s "viewer"
at_least operator s = str_eq s "owner" || str_eq s "operator"
at_least owner s = str_eq s "owner"

unfoldable pub check_access : Uuid → Uuid → AccessLevel → M Bool
check_access container_id user_id minimum = select λ d.
    ltb 0 (
      count_rows (λ o. is_of container_id user_id o && at_least minimum o.access_level)
        d.ownerships)

-- The permissions in a row, or 0 where there is none.
abbrev pub permissions_or_zero : Option ContainerOwnership → ℕ
permissions_or_zero none = 0
permissions_or_zero (some o) = o.permissions

unfoldable pub get_permissions : Uuid → Uuid → M ℕ
get_permissions container_id user_id =
    select (λ d. permissions_or_zero (find_row (is_of container_id user_id) d.ownerships))

unfoldable pub set_permissions : Uuid → Uuid → ℕ → M (Unit {0})
set_permissions container_id user_id permissions = update λ d. record d {
  ownerships =
      update_rows (is_of container_id user_id) (λ o. record o { permissions = permissions })
        d.ownerships;
}

unfoldable pub find_user_by_email : String → M (Option Uuid)
find_user_by_email email =
    select
      (λ d. Option.map (λ (u : UserRecord). u.id) (find_row (λ u. str_eq u.email email) d.users))

-- PRIMARY KEY (id), UNIQUE (container_id, user_id).
abbrev pub invitation_conflict : ContainerInvitation → ContainerInvitation → Bool
invitation_conflict a b =
    a.id == b.id || (a.container_id == b.container_id && a.user_id == b.user_id)

unfoldable pub create_container_invitation : ContainerInvitation → M (Unit {0})
create_container_invitation inv = execute λ d.
    if any (invitation_conflict inv) d.container_invitations
    then none
    else some (record d {
      container_invitations =
          d.container_invitations ++ record inv { responded_at = none; response = none } ∷ [];
    })

-- response IS NULL
abbrev pub unanswered : Option String → Bool
unanswered none = true
unanswered (some r) = false

-- The rows of the pending view; the names joined from `containers` and `users` are left out.
unfoldable pub pending_container_invitations : Uuid → M (List ContainerInvitation)
pending_container_invitations user_id = select λ d.
    order_by (λ a b. leb a.invited_at b.invited_at)
      (where_rows (λ i. i.user_id == user_id && unanswered i.response) d.container_invitations)

unfoldable pub get_container_invitation : Uuid → M (Option ContainerInvitation)
get_container_invitation id = select (λ d. find_row (λ i. i.id == id) d.container_invitations)

abbrev answer : Uuid → String → DateTime → List ContainerInvitation → List ContainerInvitation
answer id response now =
    update_rows (λ i. i.id == id)
      (λ i. record i { response = some response; responded_at = some now })

abbrev level_name : Option String → String
level_name none = "viewer"
level_name (some s) = s

unfoldable pub granted_ownership : Uuid → Uuid → ℕ → ContainerOwnership
granted_ownership container_id user_id permissions = record {
  container_id = container_id;
  user_id = user_id;
  access_level = level_name (to_preset_name permissions);
  is_primary = false;
  permissions = permissions;
}

-- INSERT … ON CONFLICT (container_id, user_id) DO NOTHING.
abbrev pub grant : Uuid → Uuid → ℕ → List ContainerOwnership → List ContainerOwnership
grant container_id user_id permissions os =
    if any (is_of container_id user_id) os
    then os
    else os ++ granted_ownership container_id user_id permissions ∷ []

unfoldable pub respond_to_container_invitation : Uuid → Uuid → Uuid → String → ℕ → M (Unit {0})
respond_to_container_invitation id container_id user_id response permissions = do
  now ← utc_now
  update λ d. record d {
    container_invitations = answer id response now d.container_invitations;
    ownerships =
        if str_eq response "accepted"
        then grant container_id user_id permissions d.ownerships
        else d.ownerships;
  }
