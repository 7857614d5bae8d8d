-- ===== src/Handlers/Oauth/Issue.antt =====
-- New refresh tokens, and conditions on an answer.
use hzelmaim.Prelude.{
  ◌≡◌, refl, Bool, false, ◌||◌, none, some, List, [], ◌∷◌, ◌++◌, any, find_row, ◌==◌, arith,
}
use hzelmaim.Prelude.Bytes.{Bytes, bytes_eq, bytes_eq_refl}
use hzelmaim.Api.{ApiError, Result, ok, err}
use hzelmaim.Models.User.{Uuid}
use hzelmaim.Models.Oauth.{OauthRefreshToken}
use hzelmaim.World.{World, Db, M, ◌>>=◌}
use hzelmaim.World.After.{
  After, Next, After-pure, After-bind, After-checked, After-utc_now, After-new_v4, After-weaken,
}
use hzelmaim.Auth.Resolver.{AuthConfig}
use hzelmaim.Db.OauthTokenRepo
use hzelmaim.Db.OauthTokenRepo.{is_live_token, refresh_conflict}
use hzelmaim.Handlers.Oauth.{sha256_hex, issue_refresh_token}

-- A condition on the answer, when there is one.
abbrev pub Told : {A : Type 0} → (A → World → Type 0) → Result A → World → Type 0
Told P (ok a) w = P a w
Told P (err e) w = Unit

pub split_or : (a b : Bool) → (a || b) ≡ false → (a ≡ false) × (b ≡ false)
split_or a b h = ground arith

-- A row whose hash no earlier row has is found by it.
find_new :
    (ts : List OauthRefreshToken) (r : OauthRefreshToken)
    → any (refresh_conflict r) ts ≡ false
    → find_row (λ t. bytes_eq t.token_hash r.token_hash) (ts ++ r ∷ []) ≡ some r
find_new [] r h = rw (bytes_eq_refl r.token_hash) refl
find_new (t ∷ ts) r h =
    let (differs, rest) = split_or (refresh_conflict r t) (any (refresh_conflict r) ts) h in
    let (other_id, other_hash) =
      split_or (t.id == r.id) (bytes_eq t.token_hash r.token_hash) differs in
    rw (other_hash, find_new ts r rest) refl

-- The text leads to a refresh token of the application and the user that is not revoked.
pub record Fresh (c : AuthConfig) (app_id user_id : Uuid) (raw : Bytes) (d : Db) : Type 0 where
  pub row : OauthRefreshToken
  pub row_found :
      find_row (λ t. bytes_eq t.token_hash (sha256_hex c raw)) d.oauth_refresh_tokens ≡ some row
  pub of_app : row.app_id ≡ app_id
  pub of_user : row.user_id ≡ user_id
  pub not_revoked : row.revoked_at ≡ none

-- A new refresh token is added to `d`.
pub record Issued (c : AuthConfig) (app_id user_id : Uuid) (d : Db) (raw : Bytes) (d' : Db)
    : Type 0 where
  pub row : OauthRefreshToken
  pub added : d' ≡ record d { oauth_refresh_tokens = d.oauth_refresh_tokens ++ row ∷ [] }
  pub fresh : Fresh c app_id user_id raw d'

pub issue_refresh_token_lem :
    (c : AuthConfig) (app_id user_id : Uuid) (random : Bytes) (w : World)
    → After
        (issue_refresh_token c app_id user_id random)
        w
        (Told (λ raw w'. Issued c app_id user_id w.db raw w'.db))
unfolding issue_refresh_token OauthTokenRepo.create
issue_refresh_token_lem c app_id user_id random w = After-bind _ _ _ _ (
    After-new_v4 _ _ (
      After-bind _ _ _ _ (
        After-utc_now _ _ (
          After-bind _ _ _ _ (
            After-checked _ _ _ _ tt λ distinct. After-pure _ _ _ (record {
              row = _;
              added = refl;
              fresh = record {
                row = _;
                row_found = find_new w.db.oauth_refresh_tokens _ distinct;
                of_app = refl;
                of_user = refl;
                not_revoked = refl;
              };
            }))))))

pub After-then :
    {A B : Type 0} {m : M A} {f : A → M B} {w : World} (P : A → World → Type 0)
    {Q : Result B → World → Type 0}
    → After m w (Told P)
    → ((e : ApiError) (w' : World) → Q (err e) w')
    → ((a : A) (w' : World) → P a w' → After (f a) w' Q)
    → After (m >>= f) w Q
After-then {m = m} {f} {w} P {Q} h failed rest =
    After-bind Q w m f (After-weaken (Next f Q) w m (Told P) next h)
  where
    next : (r : Result _) (w' : World) → Told P r w' → Next f Q r w'
    next (ok a) w' p = rest a w' p
    next (err e) w' p = failed e w'
