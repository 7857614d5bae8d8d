-- ===== src/Webhooks/Hmac.antt =====
-- Verification of an HMAC-SHA256 signature (backend/src/webhooks/hmac.rs). The crate hmac is the
-- record `HmacSha256`.
use hzelmaim.Prelude.{
  ℕ, ◌+◌, ◌*◌, ◌-◌, ◌%◌, ◌≡◌, ◌↔◌, Bool, true, false, not, ◌&&◌, Option, none, some, [], ◌∷◌,
  length, ◌==◌, leb, if◌then◌else◌,
}
use hzelmaim.Prelude.Bytes.{Bytes, strip_prefix}
use hzelmaim.Prelude.Text.{codes}
use hzelmaim.Api.{Result, ok, err, webhook_signature_invalid}

pub record HmacSha256 : Type 1 where
  pub Mac : Type 0
  pub new_from_slice : Bytes → Option Mac
  pub update : Mac → Bytes → Mac
  pub verify_slice : Mac → Bytes → Bool

-- What the crate documents: a key of any length is taken, and a tag is accepted when it is the
-- whole HMAC of the message under the key.
pub record Laws (hmac : HmacSha256) (tag_of : Bytes → Bytes → Bytes) : Type 0 where
  pub verify_iff :
      (key body tag : Bytes) (mac : hmac.Mac)
      → hmac.new_from_slice key ≡ some mac
      → (hmac.verify_slice (hmac.update mac body) tag ≡ true) ↔ (tag ≡ tag_of key body)
  pub any_key : (key : Bytes) → (mac : hmac.Mac) × (hmac.new_from_slice key ≡ some mac)

-- One digit of `from_str_radix(_, 16)`.
unfoldable pub hex_value : ℕ → Option ℕ
hex_value b =
    if leb 48 b && leb b 57
    then some (b - 48)
    else if leb 97 b && leb b 102
    then some (b - 87)
    else if leb 65 b && leb b 70
    then some (b - 55)
    else none

abbrev pub two_digits : Option ℕ → Option ℕ → Option ℕ
two_digits (some h) (some l) = some (h * 16 + l)
two_digits (some h) none = none
two_digits none l = none

-- `u8::from_str_radix` on two bytes: a leading `+` is a sign.
unfoldable pub from_str_radix : ℕ → ℕ → Option ℕ
unfolding hex_value
from_str_radix h l = if h == 43 then hex_value l else two_digits (hex_value h) (hex_value l)

abbrev pub collect : Option ℕ → Option Bytes → Option Bytes
collect (some b) (some rest) = some (b ∷ rest)
collect (some b) none = none
collect none rest = none

-- The chunks of two bytes, in order.
unfoldable pub decode_pairs : Bytes → Option Bytes
decode_pairs [] = some []
decode_pairs (h ∷ []) = none
decode_pairs (h ∷ l ∷ s) = collect (from_str_radix h l) (decode_pairs s)

-- The text is ASCII, as that of any header is, so two bytes are two characters.
unfoldable pub decode_hex : Bytes → Option Bytes
unfolding decode_pairs
decode_hex s = if not (length s % 2 == 0) then none else decode_pairs s

abbrev pub verified : Bool → Result (Unit {0})
verified true = ok tt
verified false = err webhook_signature_invalid

module _ (hmac : HmacSha256) where
  abbrev pub check_mac : Option hmac.Mac → Bytes → Bytes → Result (Unit {0})
  check_mac none body expected = err webhook_signature_invalid
  check_mac (some mac) body expected = verified (hmac.verify_slice (hmac.update mac body) expected)

  abbrev pub check_tag : Bytes → Bytes → Option Bytes → Result (Unit {0})
  check_tag secret body none = err webhook_signature_invalid
  check_tag secret body (some expected) = check_mac (hmac.new_from_slice secret) body expected

  abbrev pub check_hex : Bytes → Bytes → Option Bytes → Result (Unit {0})
  check_hex secret body none = err webhook_signature_invalid
  check_hex secret body (some hex_tag) = check_tag secret body (decode_hex hex_tag)

  unfoldable pub verify_hmac_sha256 : Bytes → Bytes → Bytes → Result (Unit {0})
  verify_hmac_sha256 secret body signature_hex =
      check_hex secret body (strip_prefix (codes "sha256=") signature_hex)
