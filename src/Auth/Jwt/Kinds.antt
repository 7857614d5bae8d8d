-- ===== src/Auth/Jwt/Kinds.antt =====
-- Which tokens each validation accepts.
use hzelmaim.Prelude.{◌+◌, ◌*◌, ◌<◌, ◌≡◌, refl, String}
use hzelmaim.Prelude.Bytes.{Bytes}
use hzelmaim.Api.{ok, err, ok_or-some, unauthorized}
use hzelmaim.Models.User.{Uuid, DateTime}
use hzelmaim.Auth.Jwt.{
  JsonWebToken, Laws, access_payload, refresh_payload, access_claims, refresh_claims, timestamp,
  access_claims_for, refresh_claims_for, generate_access_token, generate_refresh_token,
  validate_access_token, validate_refresh_token,
}

module _ (jwt : JsonWebToken) (laws : Laws jwt) (secret : Bytes) (user_id session_id : Uuid)
    (email : String) (issued now : DateTime) (token : Bytes) where
  -- A refresh token is not accepted as an access token, when the crates behave as documented and
  -- it has not expired.
  pub refresh_as_access :
      generate_refresh_token jwt secret user_id session_id issued ≡ ok token
      → timestamp now < timestamp (issued + 8 * 60 * 60 * 1000)
      → validate_access_token jwt secret now token ≡ err unauthorized
  unfolding generate_refresh_token validate_access_token refresh_payload access_claims
      refresh_claims_for
  refresh_as_access made in_time =
      rw
        (laws.decode-encode secret _ token (timestamp now) _ (ok_or-some _ _ token made) refl
          in_time)
        refl

  -- An access token of a session is accepted as a refresh token of the same user and session until
  -- it expires, when the crates behave as documented.
  pub access_as_refresh :
      generate_access_token jwt secret user_id email session_id issued ≡ ok token
      → timestamp now < timestamp (issued + 15 * 60 * 1000)
      → validate_refresh_token jwt secret now token
        ≡ ok (record {
          sub = jwt.uuid_to_string user_id;
          session_id = jwt.uuid_to_string session_id;
          iat = timestamp issued;
          exp = timestamp (issued + 15 * 60 * 1000);
        })
  unfolding generate_access_token validate_refresh_token access_payload refresh_claims
      access_claims_for
  access_as_refresh made in_time =
      rw
        (laws.decode-encode secret _ token (timestamp now) _ (ok_or-some _ _ token made) refl
          in_time)
        refl
