-- ===== src/Models/User.antt =====
-- Users, sessions' authentication methods and the authenticated actor
-- (backend/src/models/user.rs, models/session.rs, auth/context.rs).
use hzelmaim.Prelude.{ℕ, Bool, true, false, Option, List, String}
use hzelmaim.Api.{Result, ok, err, forbidden}

-- A UUID is a number: the program compares them and draws new ones.
abbrev pub Uuid : Type 0
Uuid = ℕ

-- A point in time, in milliseconds.
abbrev pub DateTime : Type 0
DateTime = ℕ

pub data UserRole : Type 0 where
  admin user : UserRole

pub data UserStatus : Type 0 where
  active disabled : UserStatus

pub record UserRecord : Type 0 where
  pub id : Uuid
  pub email : String
  pub role : UserRole
  pub status : UserStatus

pub data AuthMethod : Type 0 where
  session oidc pat oauth : AuthMethod

pub record AuthenticatedUser : Type 0 where
  pub user_id : Uuid
  pub session_id : Option Uuid
  pub email : String
  pub role : UserRole
  pub auth_method : AuthMethod
  pub authenticated_at : DateTime
  pub oauth_scopes : Option (List String)

-- `self.auth_method == AuthMethod::Oauth`
abbrev is_oauth_method : AuthMethod → Bool
is_oauth_method oauth = true
is_oauth_method _ = false

abbrev pub is_oauth : AuthenticatedUser → Bool
is_oauth actor = is_oauth_method actor.auth_method

abbrev pub effective_role : AuthenticatedUser → UserRole
effective_role actor = elim (is_oauth actor) [ true ↦ user | false ↦ actor.role ]

-- `role == &UserRole::Admin`
abbrev pub is_admin : UserRole → Bool
is_admin admin = true
is_admin user = false

unfoldable pub require_not_oauth : AuthenticatedUser → Result (Unit {0})
require_not_oauth actor = elim (is_oauth actor) [ true ↦ err forbidden | false ↦ ok tt ]
