-- ===== src/Handlers/Oauth/Owners.antt =====
-- Who may change an application.
use hzelmaim.Prelude.{
  ◌≡◌, refl, ◌∙◌, Bool, true, false, not, some, List, [], ◌∷◌, find_row, where_rows, update_rows,
  ◌==◌, ◌&&◌, inl, inr, Bool-cases, arith,
}
use hzelmaim.Prelude.Bytes.{Bytes}
use hzelmaim.Api.{ok, ok_or-some}
use hzelmaim.Models.User.{Uuid, AuthenticatedUser}
use hzelmaim.Models.Oauth.{OauthApplication, OauthRefreshToken}
use hzelmaim.World.{World, Db, M, ◌>>=◌, tick}
use hzelmaim.World.After.{After, After-pure, After-bind, After-lift_bind, After-select}
use hzelmaim.World.Keeps.{Keeps, Keeps-bind, Keeps-utc_now, Keeps-update, keeps_rules}
use hzelmaim.Auth.Resolver.{AuthConfig}
use hzelmaim.Db.OauthAppRepo
use hzelmaim.Db.OauthAppRepo.{is_live_app, is_live_token_of}
use hzelmaim.Db.OauthTokenRepo
use hzelmaim.Handlers.Oauth.{require_owner, get_app, update_app, delete_app, rotate_secret}

-- The other applications and their refresh tokens are as they were, and so is all else.
pub record OnlyApp (app_id : Uuid) (d d' : Db) : Type 0 where
  pub other_apps :
      where_rows (λ a. not (a.id == app_id)) d'.oauth_applications
      ≡ where_rows (λ a. not (a.id == app_id)) d.oauth_applications
  pub other_tokens :
      where_rows (λ t. not (t.app_id == app_id)) d'.oauth_refresh_tokens
      ≡ where_rows (λ t. not (t.app_id == app_id)) d.oauth_refresh_tokens
  pub else_same :
      record d' { oauth_applications = []; oauth_refresh_tokens = [] }
      ≡ record d { oauth_applications = []; oauth_refresh_tokens = [] }

-- Nothing is changed, or one application of the actor and its refresh tokens.
pub data AppChanged (actor : AuthenticatedUser) (app_id : Uuid) (w w' : World) : Type 0 where
  unchanged : w'.db ≡ w.db → AppChanged actor app_id w w'
  changed :
      (app : OauthApplication)
      → find_row (λ a. a.id == app_id) w.db.oauth_applications ≡ some app
      → app.owner_user_id ≡ actor.user_id
      → OnlyApp app_id w.db w'.db
      → AppChanged actor app_id w w'

-- An update of rows that the filter drops.
update-filtered :
    {A : Type 0} (k q : A → Bool) (f : A → A) (xs : List A)
    → ((x : A) → q x ≡ true → k x ≡ false)
    → ((x : A) → k x ≡ false → k (f x) ≡ false)
    → where_rows k (update_rows q f xs) ≡ where_rows k xs
update-filtered k q f [] h g = refl
update-filtered k q f (x ∷ xs) h g = elim (Bool-cases (q x)) [
  | inl t ↦ rw (t, h x t, g x (h x t)) (update-filtered k q f xs h g)
  | inr n ↦ rw n (elim (Bool-cases (k x)) [
    | inl t ↦ rw (t, update-filtered k q f xs h g) refl
    | inr o ↦ rw o (update-filtered k q f xs h g)
  ])
]

dropped : (a b : Bool) → (a && b) ≡ true → not a ≡ false
dropped a b h = ground arith

dropped_by : (a : Bool) → a ≡ true → not a ≡ false
dropped_by a h = ground arith

module _ (app_id : Uuid) (d0 : Db) where
  apps_lem :
      (q : OauthApplication → Bool) (f : OauthApplication → OauthApplication)
      → ((a : OauthApplication) → q a ≡ true → not (a.id == app_id) ≡ false)
      → ((a : OauthApplication) → (f a).id ≡ a.id)
      → (d : Db) → OnlyApp app_id d0 d
      → OnlyApp app_id d0 (record d { oauth_applications = update_rows q f d.oauth_applications })
  apps_lem q f h g d o = record {
    other_apps =
        update-filtered (λ a. not (a.id == app_id)) q f d.oauth_applications h (λ a n. rw (g a) n)
        ∙ o.other_apps;
    other_tokens = o.other_tokens;
    else_same = o.else_same;
  }

  tokens_lem :
      (q : OauthRefreshToken → Bool) (f : OauthRefreshToken → OauthRefreshToken)
      → ((t : OauthRefreshToken) → q t ≡ true → not (t.app_id == app_id) ≡ false)
      → ((t : OauthRefreshToken) → (f t).app_id ≡ t.app_id)
      → (d : Db) → OnlyApp app_id d0 d
      → OnlyApp app_id d0
          (record d { oauth_refresh_tokens = update_rows q f d.oauth_refresh_tokens })
  tokens_lem q f h g d o = record {
    other_apps = o.other_apps;
    other_tokens =
        update-filtered (λ t. not (t.app_id == app_id)) q f d.oauth_refresh_tokens h
          (λ t n. rw (g t) n)
        ∙ o.other_tokens;
    else_same = o.else_same;
  }

  update-OnlyApp :
      (name : Bytes) (uris : List Bytes)
      → Keeps (OnlyApp app_id d0) (OauthAppRepo.update_app app_id name uris)
  unfolding OauthAppRepo.update_app
  update-OnlyApp name uris =
      Keeps-update _ (apps_lem (is_live_app app_id) _ (λ a. dropped (a.id == app_id) _) (λ a. refl))

  rotate-OnlyApp :
      (hash : Bytes) → Keeps (OnlyApp app_id d0) (OauthAppRepo.rotate_secret app_id hash)
  unfolding OauthAppRepo.rotate_secret
  rotate-OnlyApp hash =
      Keeps-update _ (apps_lem (is_live_app app_id) _ (λ a. dropped (a.id == app_id) _) (λ a. refl))

  revoke_all-OnlyApp : Keeps (OnlyApp app_id d0) (OauthTokenRepo.revoke_all_for_app app_id)
  unfolding OauthTokenRepo.revoke_all_for_app
  revoke_all-OnlyApp = Keeps-bind _ _ Keeps-utc_now λ now.
      Keeps-update _
        (tokens_lem (is_live_token_of app_id) _ (λ t. dropped (t.app_id == app_id) _) (λ t. refl))

  revoke-OnlyApp : Keeps (OnlyApp app_id d0) (OauthAppRepo.revoke app_id)
  unfolding OauthAppRepo.revoke
  revoke-OnlyApp = Keeps-bind _ _ Keeps-utc_now λ now.
      Keeps-bind _ _
        (Keeps-update _ (
          tokens_lem (is_live_token_of app_id) _ (λ t. dropped (t.app_id == app_id) _) (λ t. refl)))
        λ u. Keeps-bind _ _ Keeps-utc_now λ then_now.
          Keeps-update _
            (apps_lem (λ a. a.id == app_id) _ (λ a. dropped_by (a.id == app_id)) (λ a. refl))

  get-OnlyApp : Keeps (OnlyApp app_id d0) (OauthAppRepo.get app_id)
  unfolding OauthAppRepo.get
  get-OnlyApp = search keeps_rules depth 10

ruleset only_app_rules =
    (keeps_rules, update-OnlyApp, rotate-OnlyApp, revoke_all-OnlyApp, revoke-OnlyApp, get-OnlyApp)

owns :
    (app : OauthApplication) (actor : AuthenticatedUser) (u : Unit {0})
    → require_owner app actor ≡ ok u
    → app.owner_user_id ≡ actor.user_id
unfolding require_owner
owns app actor u h = ground arith

-- What follows on the application of the actor.
owned_lem :
    {A : Type 0} (actor : AuthenticatedUser) (app_id : Uuid) (rest : OauthApplication → M A)
    (w : World)
    → ((app : OauthApplication) → Keeps (OnlyApp app_id w.db) (rest app))
    → After (get_app actor app_id >>= rest) w (λ _ w'. AppChanged actor app_id w w')
unfolding get_app OauthAppRepo.get
owned_lem actor app_id rest w k = After-bind _ w _ _ (
    After-bind _ w _ _ (
      After-select _ w _ (unchanged refl) (
        After-lift_bind (λ e. unchanged refl)
          λ app found.
            After-lift_bind (λ e. unchanged refl)
              λ u owner. After-pure _ _ _ (record {
                holds = changed app (ok_or-some _ _ app found) (owns app actor u owner) (
                    (k app).at (tick w)
                      (record { other_apps = refl; other_tokens = refl; else_same = refl }));
              }))))

-- Updating and deleting an application and rotating its secret either leave the database as it was
-- or are the work of its owner. Then no other application, no refresh token of another one, and
-- nothing else is changed.
pub app_changes_lem :
    (c : AuthConfig) (actor : AuthenticatedUser) (app_id : Uuid) (w : World)
    → ((name : Bytes) (uris : List Bytes)
        → After (update_app actor app_id name uris) w (λ _ w'. AppChanged actor app_id w w'))
      × After (delete_app actor app_id) w (λ _ w'. AppChanged actor app_id w w')
      × ((random : Bytes)
          → After (rotate_secret c actor app_id random) w (λ _ w'. AppChanged actor app_id w w'))
unfolding update_app delete_app rotate_secret
app_changes_lem c actor app_id w = (
  λ name uris.
      After-lift_bind (λ e. unchanged refl)
        λ u valid. owned_lem actor app_id _ w (λ app. search only_app_rules depth 30),
  owned_lem actor app_id _ w (λ app. search only_app_rules depth 30),
  λ random. owned_lem actor app_id _ w (λ app. search only_app_rules depth 30),
)
