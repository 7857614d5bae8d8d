-- ===== src/Webhooks/Spelling.antt =====
-- Which texts the decoder of backend/src/webhooks/hmac.rs reads.
use hzelmaim.Prelude.{
  ℕ, ◌+◌, ◌*◌, ◌-◌, ◌⊎◌, inl, inr, subst, Bool-cases, ==_iff, sym, ◌∙◌, ◌%◌, ◌<◌, ◌≡◌, refl, ap,
  false, Option, none, some, [], ◌∷◌, length, ◌==◌, arith,
}
use hzelmaim.Prelude.Bytes.{Bytes}
use hzelmaim.Webhooks.Hmac.{
  two_digits, collect, hex_value, from_str_radix, decode_pairs, decode_hex,
}

-- A hexadecimal digit, lower or upper case, and its value.
pub data HexDigit : ℕ → ℕ → Type 0 where
  decimal : (d : ℕ) → d < 10 → HexDigit (48 + d) d
  lower : (d : ℕ) → d < 6 → HexDigit (97 + d) (10 + d)
  upper : (d : ℕ) → d < 6 → HexDigit (65 + d) (10 + d)

-- A text that spells bytes, two characters for each: two hexadecimal digits, the high one first,
-- or the sign `+` and one digit.
pub data Spells : Bytes → Bytes → Type 0 where
  done : Spells [] []
  pair :
      {h l x y : ℕ} {s t : Bytes}
      → HexDigit h x
      → HexDigit l y
      → Spells s t
      → Spells (h ∷ l ∷ s) ((16 * x + y) ∷ t)
  plus : {l y : ℕ} {s t : Bytes} → HexDigit l y → Spells s t → Spells (43 ∷ l ∷ s) (y ∷ t)

HexDigit-value : {c d : ℕ} → HexDigit c d → hex_value c ≡ some d
unfolding hex_value
HexDigit-value (decimal d h) = ground arith
HexDigit-value (lower d h) = ground arith
HexDigit-value (upper d h) = ground arith

HexDigit-no_sign : {c d : ℕ} → HexDigit c d → (c == 43) ≡ false
HexDigit-no_sign (decimal d h) = ground arith
HexDigit-no_sign (lower d h) = ground arith
HexDigit-no_sign (upper d h) = ground arith

Spells-even : {s t : Bytes} → Spells s t → length s % 2 ≡ 0
Spells-even done = refl
Spells-even (pair h l r) = omega (arith, Spells-even r)
Spells-even (plus l r) = omega (arith, Spells-even r)

Spells-decode_pairs : {s t : Bytes} → Spells s t → decode_pairs s ≡ some t
unfolding decode_pairs from_str_radix
Spells-decode_pairs done = refl
Spells-decode_pairs (pair {x = x} {y} {t = t} h l r) =
    rw (HexDigit-no_sign h, HexDigit-value h, HexDigit-value l, Spells-decode_pairs r)
      (ap (λ (n : ℕ). some (n ∷ t)) (omega arith))
Spells-decode_pairs (plus l r) = rw (HexDigit-value l, Spells-decode_pairs r) refl

pub Spells-decode_hex : {s t : Bytes} → Spells s t → decode_hex s ≡ some t
unfolding decode_hex
Spells-decode_hex r = rw (Spells-even r, Spells-decode_pairs r) refl

hex_range :
    (c d : ℕ)
    → hex_value c ≡ some d
    → ((d < 10) × (c ≡ 48 + d))
      ⊎ ((d - 10 < 6) × (c ≡ 97 + (d - 10)) × (d ≡ 10 + (d - 10)))
      ⊎ ((d - 10 < 6) × (c ≡ 65 + (d - 10)) × (d ≡ 10 + (d - 10)))
unfolding hex_value
hex_range c d h = ground arith

hex_value-HexDigit : (c d : ℕ) → hex_value c ≡ some d → HexDigit c d
hex_value-HexDigit c d h = elim (hex_range c d h) [
  | inl (small, e) ↦ rw e (decimal d small)
  | inr (inl (small, e, f)) ↦ rw e (subst (HexDigit (97 + (d - 10))) (sym f) (lower (d - 10) small))
  | inr (inr (small, e, f)) ↦ rw e (subst (HexDigit (65 + (d - 10))) (sym f) (upper (d - 10) small))
]

collect-some :
    (o : Option ℕ) (r : Option Bytes) (t : Bytes)
    → collect o r ≡ some t
    → (b : ℕ) × (rest : Bytes) × (o ≡ some b) × (r ≡ some rest) × (b ∷ rest ≡ t)
collect-some (some b) (some rest) t h = (b, rest, refl, refl, cc)
collect-some (some b) none t h = absurd (cc)
collect-some none r t h = absurd (cc)

two_digits-some :
    (o p : Option ℕ) (b : ℕ)
    → two_digits o p ≡ some b
    → (x : ℕ) × (y : ℕ) × (o ≡ some x) × (p ≡ some y) × (16 * x + y ≡ b)
two_digits-some (some x) (some y) b h = (x, y, refl, refl, ground arith)
two_digits-some (some x) none b h = absurd (cc)
two_digits-some none p b h = absurd (cc)

decode_pairs-Spells : (s t : Bytes) → decode_pairs s ≡ some t → Spells s t
unfolding decode_pairs from_str_radix
decode_pairs-Spells [] t e = let same : [] ≡ t = cc in subst (Spells []) same done
decode_pairs-Spells (h ∷ []) t e = absurd (cc)
decode_pairs-Spells (h ∷ l ∷ s) t e = elim (Bool-cases (h == 43)) [
  | inl sign ↦
      let (b, rest, digit, tail, whole) = collect-some (hex_value l) _ t (rw sign at e) in
      let start : h ≡ 43 = (==_iff h 43).0 sign in
      rw start (
        subst (Spells (43 ∷ l ∷ s)) whole
          (plus (hex_value-HexDigit l b digit) (decode_pairs-Spells s rest tail)))
  | inr other ↦
      let (b, rest, digits, tail, whole) =
        collect-some (two_digits (hex_value h) (hex_value l)) _ t (rw other at e) in
      let (x, y, high, low, value) = two_digits-some (hex_value h) (hex_value l) b digits in
      subst (Spells (h ∷ l ∷ s)) (ap (λ (n : ℕ). n ∷ rest) value ∙ whole) (
        pair (hex_value-HexDigit h x high) (hex_value-HexDigit l y low)
          (decode_pairs-Spells s rest tail))
]

pub decode_hex-Spells : (s t : Bytes) → decode_hex s ≡ some t → Spells s t
unfolding decode_hex
decode_hex-Spells s t e = elim (Bool-cases (length s % 2 == 0)) [
  | inl even ↦ decode_pairs-Spells s t (rw even at e)
  | inr odd ↦ absurd (let gone : none ≡ some t = rw odd at e in cc)
]
