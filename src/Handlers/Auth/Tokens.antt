-- ===== src/Handlers/Auth/Tokens.antt =====
-- What creating, using and revoking a personal access token do together.
use hzelmaim.Prelude.{
  ◌≡◌, refl, ap, Bool, true, false, ◌&&◌, ◌||◌, Option, none, some, List, [], ◌∷◌, ◌++◌, any,
  find_row, update_rows, ◌==◌, inl, inr, Bool-cases, arith,
}
use hzelmaim.Prelude.Bytes.{Bytes, bytes_eq, bytes_eq_refl, starts_with, strip_prefix}
use hzelmaim.Api.{ApiError, Result, ok, err}
use hzelmaim.Models.User.{Uuid, DateTime, AuthenticatedUser, is_oauth, require_not_oauth}
use hzelmaim.Models.Session.{ApiTokenRecord}
use hzelmaim.World.{World, clock}
use hzelmaim.World.After.{
  After, After-pure, After-bind, After-lift_bind, After-refused, After-checked,
  After-execute_returning, After-utc_now, After-new_v4, After-if,
}
use hzelmaim.Auth.Resolver.{AuthConfig, hash_pat, pat_prefix}
use hzelmaim.Db.ApiTokenRepo
use hzelmaim.Db.ApiTokenRepo.{token_conflict, is_active_token_of}
use hzelmaim.Handlers.Auth.{create_token, revoke_token, base64_url_encode}

split_or : (a b : Bool) → (a || b) ≡ false → (a ≡ false) × (b ≡ false)
split_or a b h = ground arith

-- A row whose hash no earlier row has is found by it.
find_new :
    (ts : List ApiTokenRecord) (r : ApiTokenRecord)
    → any (token_conflict r) ts ≡ false
    → find_row (λ t. bytes_eq t.token_hash r.token_hash) (ts ++ r ∷ []) ≡ some r
find_new [] r h = rw (bytes_eq_refl r.token_hash) refl
find_new (t ∷ ts) r h =
    let (differs, rest) = split_or (token_conflict r t) (any (token_conflict r) ts) h in
    let (other_id, other_hash) =
      split_or (t.id == r.id) (bytes_eq t.token_hash r.token_hash) differs in
    rw (other_hash, find_new ts r rest) refl

-- A token is added that its text leads to, for an actor who does not come by an OAuth token, or
-- nothing is changed.
pub data TokenCreated (c : AuthConfig) (user : AuthenticatedUser) (expires_at : Option DateTime)
    (w : World) : Result (Bytes × ApiTokenRecord) → World → Type 0 where
  refused : {e : ApiError} {w' : World} → w'.db ≡ w.db → TokenCreated c user expires_at w (err e) w'
  created :
      {w' : World} (token : Bytes) (r : ApiTokenRecord)
      → is_oauth user ≡ false
      → w'.db ≡ record w.db { api_tokens = w.db.api_tokens ++ r ∷ [] }
      → find_row (λ t. bytes_eq t.token_hash (hash_pat c token)) w'.db.api_tokens ≡ some r
      → r.user_id ≡ user.user_id
      → r.expires_at ≡ expires_at
      → r.revoked_at ≡ none
      → starts_with pat_prefix token ≡ true
      → TokenCreated c user expires_at w (ok (token, r)) w'

prefix-starts_with : (s : Bytes) → starts_with pat_prefix (pat_prefix ++ s) ≡ true
unfolding starts_with strip_prefix
prefix-starts_with s = refl

not_oauth :
    (user : AuthenticatedUser) (u : Unit {0})
    → require_not_oauth user ≡ ok u
    → is_oauth user ≡ false
unfolding require_not_oauth
not_oauth user u h = ground arith

-- `create_token` either fails and leaves the database as it was, or adds one token of the actor,
-- with the given expiry and not revoked, which the hash of the returned text finds; that text has
-- the prefix of personal access tokens. An actor who comes by the token of an OAuth application gets
-- none.
pub create_token_lem :
    (c : AuthConfig) (user : AuthenticatedUser) (raw_bytes : Bytes) (expires_at : Option DateTime)
    (w : World)
    → After (create_token c user raw_bytes expires_at) w (TokenCreated c user expires_at w)
unfolding create_token ApiTokenRepo.create
create_token_lem c user raw_bytes expires_at w =
    After-lift_bind (λ e. refused refl)
      λ u allowed. After-bind _ _ _ _ (
        After-new_v4 _ _ (
          After-bind _ _ _ _ (
            After-utc_now _ _ (
              After-bind _ _ _ _ (
                After-checked _ _ _ _ (refused refl) λ fresh. After-pure _ _ _ (
                  created _ _ (not_oauth user u allowed) refl (find_new w.db.api_tokens _ fresh)
                    refl refl refl (prefix-starts_with (base64_url_encode raw_bytes))))))))

-- An update of no row.
update_none :
    {A : Type 0} (p : A → Bool) (f : A → A) (xs : List A)
    → any p xs ≡ false
    → update_rows p f xs ≡ xs
update_none p f [] h = refl
update_none p f (x ∷ xs) h =
    let (a, b) = split_or (p x) (any p xs) h in rw (a, update_none p f xs b) refl

revoked_all :
    (token_id user_id : Uuid) (now : DateTime) (ts : List ApiTokenRecord)
    → any (is_active_token_of token_id user_id) (
        update_rows
          (is_active_token_of token_id user_id)
          (λ t. record t { revoked_at = some now })
          ts)
      ≡ false
revoked_all token_id user_id now [] = refl
revoked_all token_id user_id now (t ∷ ts) =
    elim (Bool-cases (is_active_token_of token_id user_id t)) [
      | inl a ↦
          rw (a, revoked_all token_id user_id now ts)
            (dropped (t.id == token_id) (t.user_id == user_id))
      | inr i ↦ rw (i, i, revoked_all token_id user_id now ts) refl
    ]
  where
    dropped : (a b : Bool) → (((a && b) && false) || false) ≡ false
    dropped a b = ground arith

-- The active token of this id is revoked, when it is the actor's own, or nothing is changed.
pub data TokenRevoked (user : AuthenticatedUser) (token_id : Uuid) (w : World)
    : Result (Unit {0}) → World → Type 0 where
  refused : {e : ApiError} {w' : World} → w'.db ≡ w.db → TokenRevoked user token_id w (err e) w'
  revoked :
      {w' : World} (now : DateTime)
      → is_oauth user ≡ false
      → any (is_active_token_of token_id user.user_id) w.db.api_tokens ≡ true
      → w'.db ≡ record w.db {
        api_tokens =
            update_rows
              (is_active_token_of token_id user.user_id)
              (λ t. record t { revoked_at = some now })
              w.db.api_tokens;
      }
      → any (is_active_token_of token_id user.user_id) w'.db.api_tokens ≡ false
      → TokenRevoked user token_id w (ok tt) w'

-- `revoke_token` either fails and leaves the database as it was, or the actor, who does not come by
-- the token of an OAuth application, has an active token of this id: it is revoked, no token of
-- the actor with this id stays active, and nothing else is changed.
pub revoke_token_lem :
    (user : AuthenticatedUser) (token_id : Uuid) (w : World)
    → After (revoke_token user token_id) w (TokenRevoked user token_id w)
unfolding revoke_token ApiTokenRepo.revoke
revoke_token_lem user token_id w =
    let now = clock w in
    After-lift_bind (λ e. refused refl)
      λ u allowed. After-bind _ _ _ _ (
        After-bind _ _ _ _ (
          After-utc_now _ _ (
            After-execute_returning _ _ _ (refused refl) (
              After-if _ _ _ _ _
                (λ (one : any (is_active_token_of token_id user.user_id) w.db.api_tokens ≡ true).
                  After-pure _ _ _ (
                    revoked now (not_oauth user u allowed) one refl
                      (revoked_all token_id user.user_id now w.db.api_tokens)))
                (λ (no : any (is_active_token_of token_id user.user_id) w.db.api_tokens ≡ false).
                  After-refused _ _ _ (
                    refused (
                      ap (λ (ts : List ApiTokenRecord). record w.db { api_tokens = ts })
                        (update_none (is_active_token_of token_id user.user_id) _ w.db.api_tokens
                          no))))))))
