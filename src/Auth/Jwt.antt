-- ===== src/Auth/Jwt.antt =====
-- JSON web tokens (backend/src/auth/jwt.rs). The crate jsonwebtoken is the record `JsonWebToken`.
-- A payload is the fields of a JSON object that the program reads; the profile fields are left
-- out. Times are in seconds.
pub mod Kinds
use hzelmaim.Prelude.{ℕ, ◌+◌, ◌*◌, ◌/◌, ◌<◌, ◌≡◌, Option, none, some, List, [], String}
use hzelmaim.Prelude.Bytes.{Bytes}
use hzelmaim.Api.{Result, err, ok_or, unauthorized, internal}
use hzelmaim.Models.User.{Uuid, DateTime}

pub record Payload : Type 0 where
  pub sub : Option Bytes
  pub email : Option String
  pub session_id : Option Bytes
  pub client_id : Option String
  pub scopes : Option (List String)
  pub iat : Option ℕ
  pub exp : Option ℕ

pub record JsonWebToken : Type 0 where
  -- Under a secret; and under a secret, at a time in seconds.
  pub encode : Bytes → Payload → Option Bytes
  pub decode : Bytes → ℕ → Bytes → Option Payload
  -- `Uuid::to_string` and `Uuid::parse_str`.
  pub uuid_to_string : Uuid → Bytes
  pub parse_uuid : Bytes → Option Uuid

-- What the crates document: what is encoded can be decoded under the same secret until it
-- expires, and a UUID is read back.
pub record Laws (jwt : JsonWebToken) : Type 0 where
  pub decode-encode :
      (secret : Bytes) (payload : Payload) (token : Bytes) (now exp : ℕ)
      → jwt.encode secret payload ≡ some token
      → payload.exp ≡ some exp
      → now < exp
      → jwt.decode secret now token ≡ some payload
  pub parse-to_string : (id : Uuid) → jwt.parse_uuid (jwt.uuid_to_string id) ≡ some id

pub record AccessTokenClaims : Type 0 where
  pub sub : Bytes
  pub email : String
  pub session_id : Option Bytes
  pub client_id : Option String
  pub scopes : List String
  pub iat : ℕ
  pub exp : ℕ

pub record RefreshTokenClaims : Type 0 where
  pub sub : Bytes
  pub session_id : Bytes
  pub iat : ℕ
  pub exp : ℕ

-- `Serialize`.
unfoldable pub access_payload : AccessTokenClaims → Payload
access_payload c = record {
  sub = some c.sub;
  email = some c.email;
  session_id = c.session_id;
  client_id = c.client_id;
  scopes = some c.scopes;
  iat = some c.iat;
  exp = some c.exp;
}

unfoldable pub refresh_payload : RefreshTokenClaims → Payload
refresh_payload c = record {
  sub = some c.sub;
  email = none;
  session_id = some c.session_id;
  client_id = none;
  scopes = none;
  iat = some c.iat;
  exp = some c.exp;
}

abbrev or_nil : Option (List String) → List String
or_nil none = []
or_nil (some xs) = xs

-- `Deserialize`: a field without `#[serde(default)]` has to be there, an unknown one is ignored.
abbrev access_from :
    Payload → Option Bytes → Option String → Option ℕ → Option ℕ → Option AccessTokenClaims
access_from p (some sub) (some email) (some iat) (some exp) = some (record {
  sub = sub;
  email = email;
  session_id = p.session_id;
  client_id = p.client_id;
  scopes = or_nil p.scopes;
  iat = iat;
  exp = exp;
})
access_from p _ _ _ _ = none

unfoldable pub access_claims : Payload → Option AccessTokenClaims
access_claims p = access_from p p.sub p.email p.iat p.exp

abbrev refresh_from : Option Bytes → Option Bytes → Option ℕ → Option ℕ → Option RefreshTokenClaims
refresh_from (some sub) (some session_id) (some iat) (some exp) =
    some (record { sub = sub; session_id = session_id; iat = iat; exp = exp })
refresh_from _ _ _ _ = none

unfoldable pub refresh_claims : Payload → Option RefreshTokenClaims
refresh_claims p = refresh_from p.sub p.session_id p.iat p.exp

abbrev decoded : {A : Type 0} → (Payload → Option A) → Option Payload → Result A
decoded claims none = err unauthorized
decoded claims (some p) = ok_or (claims p) unauthorized

-- `timestamp()` of a time in milliseconds.
abbrev pub timestamp : DateTime → ℕ
timestamp t = t / 1000

module _ (jwt : JsonWebToken) (secret : Bytes) where
  -- `now` is the time at which the method reads the clock.
  unfoldable pub access_claims_for : Uuid → String → Uuid → DateTime → AccessTokenClaims
  access_claims_for user_id email session_id now = record {
    sub = jwt.uuid_to_string user_id;
    email = email;
    session_id = some (jwt.uuid_to_string session_id);
    client_id = none;
    scopes = [];
    iat = timestamp now;
    exp = timestamp (now + 15 * 60 * 1000);
  }

  unfoldable pub generate_access_token : Uuid → String → Uuid → DateTime → Result Bytes
  generate_access_token user_id email session_id now =
      ok_or (jwt.encode secret (access_payload (access_claims_for user_id email session_id now)))
        internal

  unfoldable pub refresh_claims_for : Uuid → Uuid → DateTime → RefreshTokenClaims
  refresh_claims_for user_id session_id now = record {
    sub = jwt.uuid_to_string user_id;
    session_id = jwt.uuid_to_string session_id;
    iat = timestamp now;
    exp = timestamp (now + 8 * 60 * 60 * 1000);
  }

  unfoldable pub generate_refresh_token : Uuid → Uuid → DateTime → Result Bytes
  generate_refresh_token user_id session_id now =
      ok_or (jwt.encode secret (refresh_payload (refresh_claims_for user_id session_id now)))
        internal

  unfoldable pub oauth_claims_for :
      Uuid → String → String → List String → DateTime → AccessTokenClaims
  oauth_claims_for user_id email client_id scopes now = record {
    sub = jwt.uuid_to_string user_id;
    email = email;
    session_id = none;
    client_id = some client_id;
    scopes = scopes;
    iat = timestamp now;
    exp = timestamp (now + 15 * 60 * 1000);
  }

  unfoldable pub generate_oauth_access_token :
      Uuid → String → String → List String → DateTime → Result Bytes
  generate_oauth_access_token user_id email client_id scopes now =
      ok_or
        (jwt.encode secret (access_payload (oauth_claims_for user_id email client_id scopes now)))
        internal

  unfoldable pub validate_access_token : DateTime → Bytes → Result AccessTokenClaims
  validate_access_token now token = decoded access_claims (jwt.decode secret (timestamp now) token)

  unfoldable pub validate_refresh_token : DateTime → Bytes → Result RefreshTokenClaims
  validate_refresh_token now token =
      decoded refresh_claims (jwt.decode secret (timestamp now) token)
