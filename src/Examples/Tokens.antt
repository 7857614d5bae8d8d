-- ===== src/Examples/Tokens.antt =====
-- A sample codec of tokens: it encodes the payloads whose ids have one byte, with an empty address
-- or none, as five numbers.
use hzelmaim.Prelude.{
  ℕ, zero, suc, ◌<◌, ◌≡◌, refl, subst, Option, none, some, List, [], ◌∷◌, String, ltb, lt→ltb,
  if◌then◌else◌,
}
use hzelmaim.Prelude.Bytes.{Bytes}
use hzelmaim.Models.User.{Uuid}
use hzelmaim.Auth.Jwt.{Payload, JsonWebToken, Laws}

-- The payload of a refresh token (0) or of an access token (1).
abbrev payload_of : ℕ → ℕ → ℕ → ℕ → ℕ → Payload
payload_of a b zero i e = record {
  sub = some (a ∷ []);
  email = none;
  session_id = some (b ∷ []);
  client_id = none;
  scopes = none;
  iat = some i;
  exp = some e;
}
payload_of a b (suc f) i e = record {
  sub = some (a ∷ []);
  email = some "";
  session_id = some (b ∷ []);
  client_id = none;
  scopes = some [];
  iat = some i;
  exp = some e;
}

pub data Encoded : Payload → Bytes → Type 0 where
  encoded : (a b f i e : ℕ) → Encoded (payload_of a b f i e) (a ∷ b ∷ f ∷ i ∷ e ∷ [])

-- What is encoded, with its evidence.
abbrev encode_fields :
    (sub : Option Bytes) (email : Option String) (session_id : Option Bytes)
    (client_id : Option String) (scopes : Option (List String)) (iat exp : Option ℕ)
    → Option (
        (token : Bytes) × Encoded
          (record {
            sub = sub;
            email = email;
            session_id = session_id;
            client_id = client_id;
            scopes = scopes;
            iat = iat;
            exp = exp;
          })
          token)
encode_fields (some (a ∷ [])) none (some (b ∷ [])) none none (some i) (some e) =
    some (_, encoded a b 0 i e)
encode_fields (some (a ∷ [])) (some String.[]) (some (b ∷ [])) none (some []) (some i) (some e) =
    some (_, encoded a b 1 i e)
encode_fields _ _ _ _ _ _ _ = none

abbrev token_of : {P : Bytes → Type 0} → Option ((token : Bytes) × P token) → Option Bytes
token_of none = none
token_of (some (token, evidence)) = some token

abbrev sample_encode : Bytes → Payload → Option Bytes
sample_encode secret p =
    token_of (encode_fields p.sub p.email p.session_id p.client_id p.scopes p.iat p.exp)

abbrev sample_decode : Bytes → ℕ → Bytes → Option Payload
sample_decode secret now (a ∷ b ∷ f ∷ i ∷ e ∷ []) =
    if ltb now e then some (payload_of a b f i e) else none
sample_decode secret now _ = none

abbrev sample_parse_uuid : Bytes → Option Uuid
sample_parse_uuid (id ∷ []) = some id
sample_parse_uuid _ = none

abbrev pub sample_jwt : JsonWebToken
sample_jwt = record {
  encode = sample_encode;
  decode = sample_decode;
  uuid_to_string = λ id. id ∷ [];
  parse_uuid = sample_parse_uuid;
}

evidence :
    {P : Bytes → Type 0} (o : Option ((token : Bytes) × P token)) (token : Bytes)
    → token_of o ≡ some token
    → P token
evidence none token h = absurd (cc)
evidence {P = P} (some (t, p)) token h = subst P (same t token h) p
  where
    same : (a b : Bytes) → Option.some a ≡ some b → a ≡ b
    same a b e = cc

same_number : (a b : ℕ) → Option.some a ≡ some b → a ≡ b
same_number a b e = cc

read_back :
    (secret : Bytes) (now exp : ℕ) (p : Payload) (token : Bytes)
    → Encoded p token
    → p.exp ≡ some exp
    → now < exp
    → sample_decode secret now token ≡ some p
read_back secret now exp p token (encoded a b zero i e) h l =
    rw (lt→ltb now e (rw (same_number e exp h) l)) refl
read_back secret now exp p token (encoded a b (suc f) i e) h l =
    rw (lt→ltb now e (rw (same_number e exp h) l)) refl

pub sample_jwt_laws : Laws sample_jwt
sample_jwt_laws = record {
  decode-encode = λ secret payload token now exp made dated in_time.
      read_back secret now exp payload token (evidence _ token made) dated in_time;
  parse-to_string = λ id. refl;
}
