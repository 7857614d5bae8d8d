-- ===== src/Handlers/Auth/Login.antt =====
-- A new personal access token speaks for its owner.
use hzelmaim.Prelude.{
  ℕ, suc, ◌≡◌, refl, sym, ap, subst, ◌∙◌, true, false, none, some, find_row, ◌==◌,
}
use hzelmaim.Prelude.Bytes.{Bytes, bytes_eq, starts_with}
use hzelmaim.Api.{Result, ok, ok_injective}
use hzelmaim.Api.Headers.{HeaderMap}
use hzelmaim.Models.User.{Uuid, DateTime, UserRecord, AuthenticatedUser, pat}
use hzelmaim.Models.Session.{ApiTokenRecord}
use hzelmaim.World.{World, Db}
use hzelmaim.World.After.{
  After, After-pure, After-bind, After-ok_bind, After-refused, After-select_told, After-update,
  After-utc_now, After-attempt, After-match_err,
}
use hzelmaim.Auth.Cookie.{extract_cookie}
use hzelmaim.Auth.Session.{authenticate_headers}
use hzelmaim.Auth.Resolver.{
  AuthConfig, pat_prefix, hash_pat, stateless, check_expiry, resolve_pat, bearer_token,
  resolve_bearer, resolve_authenticated_user,
}
use hzelmaim.Db.ApiTokenRepo
use hzelmaim.Db.UserRepo
use hzelmaim.Handlers.Auth.{create_token}
use hzelmaim.Handlers.Auth.Tokens.{TokenCreated, refused, created, create_token_lem}

-- The answer for a user who comes by a personal access token.
abbrev pub Owner : UserRecord → Result AuthenticatedUser → Type 0
Owner u r =
    (now : DateTime) × (r
      ≡ ok (record {
        user_id = u.id;
        session_id = none;
        email = u.email;
        role = u.role;
        auth_method = pat;
        authenticated_at = now;
        oauth_scopes = none;
      }))

module _ (c : AuthConfig) (token : Bytes) (row : ApiTokenRecord) (u : UserRecord) (v : World)
    (answers : (n : ℕ) → v.env.db_fault n ≡ false)
    (found : find_row (λ t. bytes_eq t.token_hash (hash_pat c token)) v.db.api_tokens ≡ some row)
    (known : find_row (λ x. x.id == row.user_id) v.db.users ≡ some u) (live : row.revoked_at ≡ none)
    (unlimited : row.expires_at ≡ none) where
  pat_lem : After (resolve_pat c token) v (λ r _. Owner u r)
  unfolding resolve_pat ApiTokenRepo.find_by_hash ApiTokenRepo.touch UserRepo.get check_expiry
      stateless
  pat_lem = After-bind _ v _ _ (
      After-select_told _ v _ (λ down. absurd (cc (answers v.steps)))
        (λ _. rw found (
          rw (live, unlimited)
            (After-ok_bind _ _ _ _ (
              After-bind _ _ _ _ (
                After-pure _ _ _ (
                  After-bind _ _ _ _ (
                    After-select_told _ _ _ (λ down. absurd (cc (answers (suc v.steps))))
                      (λ _. rw known (
                        After-ok_bind _ _ _ _ (
                          After-bind _ _ _ _ (
                            After-attempt _ _ _ (
                              After-bind _ _ _ _ (
                                After-utc_now _ _ (
                                  After-update _ _ _
                                    (After-bind _ _ _ _
                                      (After-utc_now _ _ (After-pure _ _ _ (_, refl))))
                                    (After-bind _ _ _ _ (
                                      After-utc_now _ _
                                        (After-pure _ _ _ (_, refl)))))))))))))))))))

  resolved_lem :
      (headers : HeaderMap)
      → extract_cookie headers c.cookie_name ≡ none
      → starts_with pat_prefix token ≡ true
      → After (resolve_authenticated_user c headers (some token)) v (λ r _. Owner u r)
  unfolding resolve_authenticated_user authenticate_headers bearer_token resolve_bearer
  resolved_lem headers no_cookie prefixed = After-bind _ v _ _ (
      After-attempt _ v _ (
        rw no_cookie (
          After-bind _ v _ _ (
            After-refused _ v _
              (After-match_err _ v _ _ _ (After-ok_bind _ v token _ (rw prefixed pat_lem)))))))

-- After a personal access token without expiry was created for a stored user, a request that gives
-- that token in the place of the header, and has no cookie, is answered as that user, with that
-- user's role, when every later call of the database succeeds.
pub created_token_resolves :
    (c : AuthConfig) (user : AuthenticatedUser) (raw_bytes : Bytes) (w : World)
    (headers : HeaderMap) (token : Bytes) (row : ApiTokenRecord) (u : UserRecord)
    → find_row (λ x. x.id == user.user_id) w.db.users ≡ some u
    → (create_token c user raw_bytes none w).0 ≡ ok (token, row)
    → extract_cookie headers c.cookie_name ≡ none
    → ((n : ℕ) → (create_token c user raw_bytes none w).1.env.db_fault n ≡ false)
    → Owner u
        (resolve_authenticated_user c headers
          (some token)
          (create_token c user raw_bytes none w).1).0
created_token_resolves c user raw_bytes w headers token row u stored made no_cookie answers =
    next _ _ (create_token_lem c user raw_bytes none w).holds made answers
  where
    next :
        (r : Result (Bytes × ApiTokenRecord)) (v : World)
        → TokenCreated c user none w r v
        → r ≡ ok (token, row)
        → ((n : ℕ) → v.env.db_fault n ≡ false)
        → Owner u (resolve_authenticated_user c headers (some token) v).0
    next r v (refused same) e up = absurd (cc)
    next r v (created t row' allowed added found owner expiry live prefixed) e up =
        let same : (t, row') ≡ (token, row) = ok_injective (t, row') (token, row) e in
        subst (λ (x : Bytes). Owner u (resolve_authenticated_user c headers (some x) v).0)
          (ap (λ (x : Bytes × ApiTokenRecord). x.0) same)
          (resolved_lem c t row' u v up found
            (subst (λ (id : Uuid). find_row (λ x. x.id == id) v.db.users ≡ some u) (sym owner)
              (ap (λ (d : Db). find_row (λ x. x.id == user.user_id) d.users) added ∙ stored))
            live expiry headers no_cookie prefixed).holds
