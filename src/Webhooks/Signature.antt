-- ===== src/Webhooks/Signature.antt =====
-- What a verified signature says (backend/src/webhooks/hmac.rs, github.rs).
use hzelmaim.Prelude.{
  ℕ, ◌/◌, ◌%◌, ◌<◌, ◌≡◌, ◌↔◌, refl, ap, Bool, true, false, Option, none, some, [], ◌∷◌, ◌++◌,
  length, All, ◌==◌, arith,
}
use hzelmaim.Prelude.Bytes.{
  Bytes, strip_prefix, strip_prefix-append, strip_prefix_sound, lower_hex, hex_digit,
}
use hzelmaim.Prelude.Text.{codes}
use hzelmaim.Api.{ok}
use hzelmaim.Webhooks.Hmac.{
  HmacSha256, Laws, hex_value, from_str_radix, decode_pairs, decode_hex, verify_hmac_sha256,
  verified, check_tag, check_hex,
}
use hzelmaim.Api.Headers.{HeaderMap}
use hzelmaim.Webhooks.Github
use hzelmaim.Webhooks.Spelling.{Spells, Spells-decode_hex, decode_hex-Spells}
use hzelmaim.Webhooks.Github.{check_signature}

hex_value-hex_digit : (n : ℕ) → n < 16 → hex_value (hex_digit n) ≡ some n
unfolding hex_value
hex_value-hex_digit n h = ground arith

no_sign : (n : ℕ) → (hex_digit n == 43) ≡ false
no_sign n = ground arith

from_str_radix-hex_digit :
    (b : ℕ) → b < 256 → from_str_radix (hex_digit (b / 16)) (hex_digit (b % 16)) ≡ some b
unfolding from_str_radix
from_str_radix-hex_digit b h =
    rw
      (
        no_sign (b / 16),
        hex_value-hex_digit (b / 16) (omega arith),
        hex_value-hex_digit (b % 16) (omega arith),
      )
      (ap (λ (n : ℕ). some n) (omega arith))

even_hex : (s : Bytes) → length (lower_hex s) % 2 ≡ 0
unfolding lower_hex
even_hex [] = refl
even_hex (b ∷ s) = omega (arith, even_hex s)

decode_pairs-lower_hex : (s : Bytes) → All (λ b. b < 256) s → decode_pairs (lower_hex s) ≡ some s
unfolding decode_pairs lower_hex
decode_pairs-lower_hex [] h = refl
decode_pairs-lower_hex (b ∷ s) h =
    rw (from_str_radix-hex_digit b h.0, decode_pairs-lower_hex s h.1) refl

-- `decode_hex` reads back the lower-case hexadecimal digits of any bytes.
pub decode_hex-lower_hex : (s : Bytes) → All (λ b. b < 256) s → decode_hex (lower_hex s) ≡ some s
unfolding decode_hex
decode_hex-lower_hex s h = rw (even_hex s, decode_pairs-lower_hex s h) refl

-- The signature header of GitHub: `sha256=` and a text that spells the HMAC of the body.
pub record Signed (tag_of : Bytes → Bytes → Bytes) (headers : HeaderMap) (raw_body secret : Bytes)
    : Type 0 where
  pub digits : Bytes
  pub header : headers "x-hub-signature-256" ≡ some (codes "sha256=" ++ digits)
  pub spelled : Spells digits (tag_of secret raw_body)

module _ (hmac : HmacSha256) (tag_of : Bytes → Bytes → Bytes) (laws : Laws hmac tag_of)
    (raw_body secret : Bytes) where
  verified-true : (b : Bool) → verified b ≡ ok tt → b ≡ true
  verified-true true h = refl
  verified-true false h = absurd (cc)

  check_tag_iff :
      (expected : Bytes)
      → (check_tag hmac secret raw_body (some expected) ≡ ok tt)
        ↔ (expected ≡ tag_of secret raw_body)
  check_tag_iff expected =
      let (mac, e) = laws.any_key secret in
      let same = laws.verify_iff secret raw_body expected mac e in
      (λ h. same.0 (verified-true _ (rw e at h)), λ t. rw e (rw (same.1 t) refl))

  check_hex-digits :
      (digits : Bytes) (o : Option Bytes)
      → decode_hex digits ≡ o
      → check_tag hmac secret raw_body o ≡ ok tt
      → o ≡ some (tag_of secret raw_body)
  check_hex-digits digits none e h = absurd (cc)
  check_hex-digits digits (some expected) e h = rw ((check_tag_iff expected).0 h) refl

  check_hex-Signed :
      (headers : HeaderMap) (sig : Bytes) (o : Option Bytes)
      → headers "x-hub-signature-256" ≡ some sig
      → strip_prefix (codes "sha256=") sig ≡ o
      → check_hex hmac secret raw_body o ≡ ok tt
      → Signed tag_of headers raw_body secret
  check_hex-Signed headers sig none e p h = absurd (cc)
  check_hex-Signed headers sig (some digits) e p h = record {
    digits = digits;
    header = rw (e, strip_prefix_sound (codes "sha256=") sig digits p) refl;
    spelled = decode_hex-Spells digits _ (check_hex-digits digits (decode_hex digits) refl h);
  }

  verify-Signed :
      (headers : HeaderMap) (o : Option Bytes)
      → headers "x-hub-signature-256" ≡ o
      → check_signature hmac secret raw_body o ≡ ok tt
      → Signed tag_of headers raw_body secret
  unfolding verify_hmac_sha256
  verify-Signed headers none e h = absurd (cc)
  verify-Signed headers (some sig) e h =
      check_hex-Signed headers sig (strip_prefix (codes "sha256=") sig) e refl h

  Signed-verify :
      (headers : HeaderMap)
      → Signed tag_of headers raw_body secret
      → Github.verify hmac headers raw_body secret ≡ ok tt
  unfolding Github.verify verify_hmac_sha256
  Signed-verify headers signed = rw signed.header (
      rw (strip_prefix-append (codes "sha256=") signed.digits)
        (rw (Spells-decode_hex signed.spelled) ((check_tag_iff (tag_of secret raw_body)).1 refl)))

  -- When the crate's HMAC behaves as documented, the GitHub provider accepts a request exactly when
  -- its signature header is `sha256=` with a text that spells the HMAC of the body under the secret:
  -- two characters for each byte, which are two hexadecimal digits, the high one first, or `+` and
  -- one digit.
  pub verify_iff :
      (headers : HeaderMap)
      → (Github.verify hmac headers raw_body secret ≡ ok tt) ↔ Signed tag_of headers raw_body secret
  unfolding Github.verify
  verify_iff headers =
      (verify-Signed headers (headers "x-hub-signature-256") refl, Signed-verify headers)
