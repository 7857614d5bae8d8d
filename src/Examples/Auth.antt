-- ===== src/Examples/Auth.antt =====
-- Authentication at sample values.
use hzelmaim.Prelude.{
  ℕ, ◌+◌, ◌≡◌, ◌≢◌, refl, Option, none, some, List, [], ◌∷◌, str_eq, if◌then◌else◌, arith,
}
use hzelmaim.Prelude.Bytes.{Bytes, lower_hex, split, split_once}
use hzelmaim.Prelude.Text.{codes, trim, trim_start, is_whitespace}
use hzelmaim.Api.{ok, err, unauthorized}
use hzelmaim.Api.Headers.{HeaderMap}
use hzelmaim.Models.User.{AuthMethod, UserRole, active, require_not_oauth}
use hzelmaim.Models.Session.{SessionRecord, ApiTokenRecord}
use hzelmaim.World.{World, ◌>>=◌, pure, lift, select, execute, update, utc_now, new_v4}
use hzelmaim.World.After.{After}
use hzelmaim.Auth.Session.{
  AuthenticatedSession, admit, session_of, authenticate_headers, revoke_session,
}
use hzelmaim.Auth.Cookie.{extract_cookie, find_cookie}
use hzelmaim.Db.AuthStore
use hzelmaim.Auth.Session.Validity.{Authenticated, authenticate_headers_lem}
use hzelmaim.Auth.Session.Revocation.{SessionAction, request, act, act_all, revoked_for_good}
use hzelmaim.Auth.Jwt.{
  generate_access_token, generate_refresh_token, validate_access_token, validate_refresh_token,
  access_claims_for, refresh_claims_for, access_payload, refresh_payload,
}
use hzelmaim.Auth.Jwt.Kinds.{refresh_as_access, access_as_refresh}
use hzelmaim.Auth.Resolver.{AuthConfig, hash_pat, bearer_token, resolve_authenticated_user}
use hzelmaim.Auth.Resolver.Evidence.{Resolved}
use hzelmaim.Auth.Resolver.Identity.{resolve_lem}
use hzelmaim.Db.ApiTokenRepo
use hzelmaim.Handlers.Auth.{create_token, revoke_token, base64_url_encode, base64_standard}
use hzelmaim.Handlers.Auth.Login.{Owner, created_token_resolves}
use hzelmaim.Handlers.Auth.Tokens.{TokenCreated, TokenRevoked, create_token_lem, revoke_token_lem}
use hzelmaim.Examples.{sample_db, sample_world, alice}
use hzelmaim.Examples.Tokens.{sample_jwt, sample_jwt_laws}

abbrev config : AuthConfig
config = record {
  jwt = sample_jwt;
  sha256 = λ s. s;
  secret = codes "key";
  cookie_name = codes "sid";
}

abbrev alice_session : ℕ → SessionRecord
alice_session id = record {
  id = id;
  user_id = 1;
  csrf_token = codes "csrf";
  auth_method = AuthMethod.session;
  expires_at = 1000;
  created_at = 0;
  last_seen_at = 0;
  revoked_at = none;
}

abbrev alice_token : ApiTokenRecord
alice_token = record {
  id = 71;
  user_id = 1;
  token_hash = codes "00";
  last_used_at = none;
  expires_at = none;
  created_at = 0;
  revoked_at = none;
}

-- Alice's sessions are 65, which is "A", and 66, which is "B".
abbrev signed_in : World
signed_in = record sample_world {
  db = record sample_db {
    sessions = alice_session 65 ∷ alice_session 66 ∷ [];
    api_tokens = alice_token ∷ [];
  };
}

abbrev with_cookie : Bytes → HeaderMap
with_cookie raw name =
    if str_eq name "cookie"
    then some raw
    else if str_eq name "x-csrf-token"
    then some (codes "csrf")
    else none

abbrev cookie_a : HeaderMap
cookie_a = with_cookie (codes "theme=dark; sid=A")

abbrev cookie_b : HeaderMap
cookie_b = with_cookie (codes "sid=B")

abbrev parse : Bytes → Option ℕ
parse = sample_jwt.parse_uuid

authenticate_headers_lem_example :
    After
      (authenticate_headers parse (codes "sid") cookie_a)
      signed_in
      (Authenticated parse (codes "sid") cookie_a signed_in)
authenticate_headers_lem_example = authenticate_headers_lem parse (codes "sid") cookie_a signed_in

resolve_lem_example :
    After
      (resolve_authenticated_user config cookie_a none)
      signed_in
      (λ r _. Resolved config cookie_a (bearer_token none cookie_a) signed_in r)
resolve_lem_example = resolve_lem config cookie_a none signed_in

create_token_lem_example :
    After
      (create_token config alice (1 ∷ 2 ∷ 3 ∷ []) none)
      signed_in
      (TokenCreated config alice none signed_in)
create_token_lem_example = create_token_lem config alice (1 ∷ 2 ∷ 3 ∷ []) none signed_in

revoke_token_lem_example : After (revoke_token alice 71) signed_in (TokenRevoked alice 71 signed_in)
revoke_token_lem_example = revoke_token_lem alice 71 signed_in

abbrev new_text : Bytes
new_text = codes "hzel_AQID"

abbrev new_token : ApiTokenRecord
new_token = record {
  id = signed_in.env.uuid 0;
  user_id = 1;
  token_hash = lower_hex new_text;
  last_used_at = none;
  expires_at = none;
  created_at = signed_in.env.time 1 + 0;
  revoked_at = none;
}

abbrev no_headers : HeaderMap
no_headers name = none

made : (create_token config alice (1 ∷ 2 ∷ 3 ∷ []) none signed_in).0 ≡ ok (new_text, new_token)
unfolding create_token require_not_oauth base64_url_encode base64_standard hash_pat lower_hex
    ApiTokenRepo.create ◌>>=◌ pure lift execute utc_now new_v4
made = refl

created_token_resolves_example :
    Owner
      (record { id = 1; email = "alice@example.org"; role = UserRole.user; status = active })
      (resolve_authenticated_user config no_headers
        (some new_text)
        (create_token config alice (1 ∷ 2 ∷ 3 ∷ []) none signed_in).1).0
unfolding create_token require_not_oauth ApiTokenRepo.create ◌>>=◌ pure lift execute utc_now new_v4
    extract_cookie hash_pat lower_hex
created_token_resolves_example =
    created_token_resolves config alice (1 ∷ 2 ∷ 3 ∷ []) signed_in no_headers new_text new_token
      (record { id = 1; email = "alice@example.org"; role = UserRole.user; status = active }) refl
      made refl (λ n. refl)

abbrev alice_access : Bytes
alice_access = 1 ∷ 65 ∷ 1 ∷ 0 ∷ 900 ∷ []

abbrev alice_refresh : Bytes
alice_refresh = 1 ∷ 65 ∷ 0 ∷ 0 ∷ 28800 ∷ []

issued_access : generate_access_token sample_jwt [] 1 "" 65 0 ≡ ok alice_access
unfolding generate_access_token access_claims_for access_payload
issued_access = refl

issued_refresh : generate_refresh_token sample_jwt [] 1 65 0 ≡ ok alice_refresh
unfolding generate_refresh_token refresh_claims_for refresh_payload
issued_refresh = refl

refresh_as_access_example :
    validate_access_token sample_jwt [] 5000 alice_refresh ≡ err unauthorized
refresh_as_access_example =
    refresh_as_access sample_jwt sample_jwt_laws [] 1 65 "" 0 5000 alice_refresh issued_refresh
      (omega arith)

access_as_refresh_example :
    validate_refresh_token sample_jwt [] 5000 alice_access
    ≡ ok (record { sub = 1 ∷ []; session_id = 65 ∷ []; iat = 0; exp = 900 })
access_as_refresh_example =
    access_as_refresh sample_jwt sample_jwt_laws [] 1 65 "" 0 5000 alice_access issued_access
      (omega arith)

-- After Alice has left session 65 she still has session 66.
abbrev left : List SessionAction
left = request cookie_a ∷ request cookie_b ∷ []

abbrev answer_b : AuthenticatedSession
answer_b = record {
  user = record alice { session_id = some 66; email = "alice@example.org" };
  csrf_token = codes "csrf";
  expires_at = 1000;
}

revoked_65 : (revoke_session 65 signed_in).0 ≡ ok tt
unfolding revoke_session AuthStore.revoke_session ◌>>=◌ utc_now update
revoked_65 = refl

still_66 :
    (authenticate_headers parse
      (codes "sid")
      cookie_b
      (act_all parse (codes "sid") left (revoke_session 65 signed_in).1)).0
    ≡ ok answer_b
unfolding authenticate_headers admit session_of act_all act revoke_session AuthStore.revoke_session
    AuthStore.get_session AuthStore.get_user AuthStore.touch_session extract_cookie find_cookie
    split split_once trim trim_start is_whitespace ◌>>=◌ pure lift select update utc_now
still_66 = refl

revoked_for_good_example : answer_b.user.session_id ≢ some 65
revoked_for_good_example =
    revoked_for_good parse (codes "sid") 65 signed_in left cookie_b answer_b refl revoked_65
      still_66
