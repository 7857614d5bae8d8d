-- ===== src/Handlers/Oauth/Encoding.antt =====
-- The two base64 encoders of the handlers.
use hzelmaim.Prelude.{
  ℕ, zero, suc, ◌≡◌, refl, false, not, List, [], ◌∷◌, ◌/◌, ◌*◌, any, where_rows, ◌==◌, bit_and,
  bit_or, arith,
}
use hzelmaim.Prelude.Bytes.{Bytes}
use hzelmaim.Handlers.Auth.{alphabet, nth, char_at, url_safe, base64_standard, base64_url_encode}
use hzelmaim.Handlers.Oauth.{base64_chunks, base64url_encode}

-- No character of an alphabet without it becomes the padding.
nth-padding :
    (xs : List ℕ) (i : ℕ)
    → any (λ b. url_safe b == 61) xs ≡ false
    → (url_safe (nth xs i) == 61) ≡ false
nth-padding [] i h = refl
nth-padding (x ∷ xs) zero h = ground arith
nth-padding (x ∷ xs) (suc i) h = nth-padding xs i (ground arith)

-- The filter of the padding keeps a character.
kept :
    (i : ℕ) (xs : Bytes)
    → where_rows (λ b. not (b == 61)) (url_safe (char_at i) ∷ xs)
      ≡ url_safe (char_at i) ∷ where_rows (λ b. not (b == 61)) xs
kept i xs = rw (nth-padding alphabet i refl) refl

-- `base64url_encode` of the OAuth handlers and `base64_url_encode` of the handlers of tokens, one
-- without padding and the other with padding that is filtered out, encode any bytes alike.
pub base64url_encode-base64_url_encode :
    (bytes : Bytes) → base64url_encode bytes ≡ base64_url_encode bytes
unfolding base64url_encode base64_url_encode base64_chunks base64_standard
base64url_encode-base64_url_encode [] = refl
base64url_encode-base64_url_encode (b0 ∷ []) =
    rw (kept (b0 / 4), kept (bit_or (bit_and b0 3 * 16) 0)) refl
base64url_encode-base64_url_encode (b0 ∷ b1 ∷ []) =
    rw
      (
        kept (b0 / 4),
        kept (bit_or (bit_and b0 3 * 16) (b1 / 16)),
        kept (bit_or (bit_and b1 15 * 4) 0),
      )
      refl
base64url_encode-base64_url_encode (b0 ∷ b1 ∷ b2 ∷ s) =
    rw
      (
        kept (b0 / 4),
        kept (bit_or (bit_and b0 3 * 16) (b1 / 16)),
        kept (bit_or (bit_and b1 15 * 4) (b2 / 64)),
        kept (bit_and b2 63),
        base64url_encode-base64_url_encode s,
      )
      refl
