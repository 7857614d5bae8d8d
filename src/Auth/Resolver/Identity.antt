-- ===== src/Auth/Resolver/Identity.antt =====
-- Whom the resolver answers.
use hzelmaim.Prelude.{
  ℕ, ◌<◌, ◌≡◌, refl, ap, sym, ◌∙◌, subst, true, false, Option, none, some, find_row, ◌==◌, leb,
  arith, if◌then◌else◌,
}
use hzelmaim.Prelude.Bytes.{Bytes, starts_with}
use hzelmaim.Api.{ApiError, Result, ok, err, ok_or, ok_injective, ok_or-some, unauthorized}
use hzelmaim.Api.Headers.{HeaderMap}
use hzelmaim.Models.User.{
  Uuid, DateTime, UserRecord, AuthenticatedUser, pat, effective_role, is_admin,
}
use hzelmaim.World.{World, Db, tick, clock, pure, match_result}
use hzelmaim.World.After.{
  After, After-pure, After-bind, After-lift_bind, After-refused, After-select, After-update,
  After-utc_now, After-if, After-attempt, After-weaken, After-match_ok, After-match_err,
}
use hzelmaim.Auth.Session.{AuthenticatedSession, is_some}
use hzelmaim.Auth.Session.Validity.{
  Waited, waited, Authenticated, refused, admitted, authenticate_headers_lem,
}
use hzelmaim.Auth.Resolver.{
  AuthConfig, pat_prefix, hash_pat, and_parsed, stateless, check_expiry, resolve_pat,
  actor_of_claims, resolve_jwt, bearer_token, resolve_bearer, resolve_authenticated_user,
}
use hzelmaim.Db.ApiTokenRepo
use hzelmaim.Db.UserRepo
use hzelmaim.Auth.Resolver.Evidence.{
  Unexpired, never, ahead, ByBearer, unknown, by_pat, by_jwt, ByBearer-before, Resolved, by_session,
  by_bearer, ActorOf, of_client, of_session,
}

later : (n m : ℕ) → leb n m ≡ false → m < n
later n m h = ground arith

pub not_none : {A : Type 0} (o : Option A) → is_some o ≡ false → o ≡ none
not_none none h = refl
not_none (some a) h = absurd (cc)

is_some-true : {A : Type 0} (o : Option A) → is_some o ≡ true → (a : A) × (o ≡ some a)
is_some-true none h = absurd (cc)
is_some-true (some a) h = (a, refl)

and_parsed-some :
    (parse : Bytes → Option Uuid) (o : Option Bytes) (id : Uuid)
    → and_parsed parse o ≡ some id
    → (raw : Bytes) × (o ≡ some raw) × (parse raw ≡ some id)
and_parsed-some parse none id h = absurd (cc)
and_parsed-some parse (some raw) id h = (raw, refl, h)

check_expiry_lem :
    (o : Option DateTime) (w : World) (Q : Result (Unit {0}) → World → Type 0)
    → ((e : ApiError) (w' : World) → Q (err e) w')
    → ((w' : World) → Waited w w' → Unexpired w o → Q (ok tt) w')
    → After (check_expiry o) w Q
unfolding check_expiry
check_expiry_lem none w Q failed passed =
    After-pure Q w tt (passed w (waited refl refl refl (omega arith)) never)
check_expiry_lem (some expires_at) w Q failed passed = After-bind _ w _ _ (
    After-utc_now w _ (
      After-if _ _ _ _ _ (λ _. After-refused _ _ _ (failed _ _))
        (λ (in_time : leb expires_at (clock w) ≡ false). After-pure _ _ _ (
          passed (tick w) (waited refl refl refl (omega arith))
            (ahead w.steps (omega arith) (later expires_at (clock w) in_time))))))

Unexpired-tick : {w : World} {o : Option DateTime} → Unexpired (tick w) o → Unexpired w o
Unexpired-tick never = never
Unexpired-tick (ahead step l h) = ahead step (omega arith) h

-- A row of `users`, found later in the same table.
user_before :
    (w v : World) (id : Uuid) (u : UserRecord)
    → v.db ≡ w.db
    → ok_or (find_row (λ u. u.id == id) v.db.users) unauthorized ≡ ok u
    → find_row (λ u. u.id == id) w.db.users ≡ some u
user_before w v id u e h =
    sym (ap (λ (d : Db). find_row (λ u. u.id == id) d.users) e) ∙ ok_or-some _ _ u h

module _ (c : AuthConfig) (token : Bytes) (w : World) where
  abbrev Q : Result AuthenticatedUser → World → Type 0
  Q r w' = ByBearer c (some token) w r

  pat_lem : starts_with pat_prefix token ≡ true → After (resolve_pat c token) w Q
  unfolding resolve_pat stateless hash_pat ApiTokenRepo.find_by_hash ApiTokenRepo.touch UserRepo.get
  pat_lem p = After-bind _ w _ _ (
      After-select _ w _ unknown (
        After-lift_bind (λ e. unknown)
          λ row found.
            After-if _ _ _ _ _ (λ _. After-refused _ _ _ unknown)
              λ (fresh : is_some row.revoked_at ≡ false). After-bind _ _ _ _ (
                check_expiry_lem row.expires_at (tick w) _ (λ e w'. unknown)
                  λ v still in_time. After-bind _ _ _ _ (
                    After-select _ _ _ unknown (
                      After-lift_bind (λ e. unknown)
                        λ user known.
                          let done : (now : DateTime)
                              → ByBearer c (some token) w (ok (stateless user none pat now none)) =
                            λ now. by_pat token refl (record {
                              prefixed = p;
                              row = row;
                              row_found = ok_or-some _ _ row found;
                              not_revoked = not_none row.revoked_at fresh;
                              unexpired = Unexpired-tick in_time;
                              user = user;
                              user_found = user_before w v row.user_id user still.db known;
                              now = now;
                              same = refl;
                            }) in
                          After-bind _ _ _ _ (
                            After-attempt _ _ _ (
                              After-bind _ _ _ _ (
                                After-utc_now _ _ (
                                  After-update _ _ _
                                    (After-bind _ _ _ _
                                      (After-utc_now _ _ (After-pure _ _ _ (done _))))
                                    (After-bind _ _ _ _
                                      (After-utc_now _ _ (After-pure _ _ _ (done _)))))))))))))

  jwt_lem : starts_with pat_prefix token ≡ false → After (resolve_jwt c token) w Q
  unfolding resolve_jwt actor_of_claims UserRepo.get stateless
  jwt_lem other = After-bind _ w _ _ (
      After-utc_now w _ (
        After-lift_bind (λ e. unknown)
          λ claims accepted.
            After-lift_bind (λ e. unknown)
              λ user_id subject. After-bind _ _ _ _ (
                After-select _ _ _ unknown (
                  After-lift_bind (λ e. unknown)
                    λ user found.
                      let done : (actor : AuthenticatedUser)
                          → ActorOf c claims user actor
                          → is_admin (effective_role actor)
                            ≡ (if is_some claims.client_id then false else is_admin user.role)
                          → ByBearer c (some token) w (ok actor) =
                        λ actor same limit. by_jwt token refl other (record {
                          step = w.steps;
                          step_after = omega arith;
                          claims = claims;
                          accepted = accepted;
                          user_id = user_id;
                          subject = ok_or-some _ _ user_id subject;
                          user = user;
                          user_found = ok_or-some _ _ user found;
                          identity = same;
                          limited = limit;
                        }) in
                      After-if _ _ _ _ _
                        (λ (oauth_token : is_some claims.client_id ≡ true).
                          let (client_id, client) = is_some-true claims.client_id oauth_token in
                          After-bind _ _ _ _ (
                            After-utc_now _ _ (
                              After-pure _ _ _ (
                                done _ (of_client client_id _ client refl) (rw oauth_token refl)))))
                        (λ (oidc_token : is_some claims.client_id ≡ false).
                          After-lift_bind (λ e. unknown)
                            λ session_id known.
                              let (raw, present, parsed) =
                                and_parsed-some c.jwt.parse_uuid claims.session_id session_id
                                  (ok_or-some _ _ session_id known) in
                              After-bind _ _ _ _ (
                                After-utc_now _ _ (
                                  After-pure _ _ _ (
                                    done _
                                      (of_session raw session_id _ (not_none _ oidc_token) present
                                        parsed refl)
                                      (rw oidc_token refl)))))))))

bearer_lem :
    (c : AuthConfig) (raw : Option Bytes) (w : World)
    → After (resolve_bearer c raw) w (λ r _. ByBearer c raw w r)
unfolding resolve_bearer
bearer_lem c none w = After-lift_bind (λ e. unknown) λ t absent. absurd (cc)
bearer_lem c (some token) w =
    After-lift_bind (λ e. unknown)
      λ t same.
        subst
          (λ (u : Bytes).
            After (if starts_with pat_prefix u then resolve_pat c u else resolve_jwt c u) w
              (λ r _. ByBearer c (some token) w r))
          (ok_injective token t same)
          (After-if _ _ _ _ _ (λ p. pat_lem c token w p) (λ n. jwt_lem c token w n))

-- Whoever a request is resolved to has the cookie of a live session, whose user is active, and is
-- that user, with that session; or no cookie speaks for anybody and the bearer token is a personal
-- access token that is stored, not revoked and not expired, or carries claims that are accepted
-- while the request runs, and does not begin as a personal access token does: the actor is the
-- stored user that these name, with that user's role. An actor with the token of an OAuth
-- application has no administrator's rights.
pub resolve_lem :
    (c : AuthConfig) (headers : HeaderMap) (bearer_override : Option Bytes) (w : World)
    → After
        (resolve_authenticated_user c headers bearer_override)
        w
        (λ r _. Resolved c headers (bearer_token bearer_override headers) w r)
unfolding resolve_authenticated_user
resolve_lem c headers bearer_override w = After-bind _ w _ _ (
    After-attempt _ w _ (
      After-weaken _ w _ (Authenticated c.jwt.parse_uuid c.cookie_name headers w)
        (λ r w' a. next r w' a)
        (authenticate_headers_lem c.jwt.parse_uuid c.cookie_name headers w)))
  where
    next :
        (r : Result AuthenticatedSession) (w' : World)
        → Authenticated c.jwt.parse_uuid c.cookie_name headers w r w'
        → After
            (match_result r
              (λ s. pure s.user)
              (λ e. resolve_bearer c (bearer_token bearer_override headers)))
            w'
            (λ r _. Resolved c headers (bearer_token bearer_override headers) w r)
    next r w' (refused still gone) = After-match_err _ w' _ _ _ (
        After-weaken _ w' _ _
          (λ x v h.
            by_bearer gone
              (ByBearer-before w w' still c (bearer_token bearer_override headers) x h))
          (bearer_lem c (bearer_token bearer_override headers) w'))
    next r w' (admitted token id row now cookie parsed live stored) =
        After-match_ok _ w' _ _ _ (After-pure _ w' _ (by_session token id row cookie parsed live))
