-- ===== src/Prelude/Bytes.antt =====
-- A `String` and a byte slice as the list of its bytes, with the methods of `str` that the program
-- calls. A literal in ASCII has its codes for bytes.
use Prim.Native.Nat.{ℕ, ◌+◌, ◌/◌, ◌%◌}
use mathlib.Core.Path.{◌≡◌, refl}
use mathlib.Core.Logic.{◌↔◌, inl, inr}
use mathlib.Core.Bool.{Bool, true, false, ◌&&◌}
use mathlib.Core.Option.{Option, none, some}
use mathlib.Core.List.{List, [], ◌∷◌, ◌++◌}
use native.Mathlib.Omega.{arith}
use hzelmaim.Prelude.Tests.{◌==◌, ltb, ==_iff, ==_refl, if◌then◌else◌, Bool-cases}

abbrev pub Bytes : Type 0
Bytes = List ℕ

-- `==` of two texts.
abbrev pub bytes_eq : Bytes → Bytes → Bool
bytes_eq [] [] = true
bytes_eq [] (b ∷ t) = false
bytes_eq (a ∷ s) [] = false
bytes_eq (a ∷ s) (b ∷ t) = a == b && bytes_eq s t

bytes_eq_sound : (s t : Bytes) → bytes_eq s t ≡ true → s ≡ t
bytes_eq_sound [] [] h = refl
bytes_eq_sound [] (b ∷ t) h = cc
bytes_eq_sound (a ∷ s) [] h = cc
bytes_eq_sound (a ∷ s) (b ∷ t) h = ground (arith, bytes_eq_sound s t)

pub bytes_eq_refl : (s : Bytes) → bytes_eq s s ≡ true
bytes_eq_refl [] = refl
bytes_eq_refl (a ∷ s) = rw (==_refl a, bytes_eq_refl s) refl

pub bytes_eq_iff : (s t : Bytes) → (bytes_eq s t ≡ true) ↔ (s ≡ t)
bytes_eq_iff s t = (bytes_eq_sound s t, λ e. rw e (bytes_eq_refl t))

-- `strip_prefix`.
unfoldable pub strip_prefix : Bytes → Bytes → Option Bytes
strip_prefix [] s = some s
strip_prefix (p ∷ ps) [] = none
strip_prefix (p ∷ ps) (b ∷ s) = if p == b then strip_prefix ps s else none

pub strip_prefix-append : (p s : Bytes) → strip_prefix p (p ++ s) ≡ some s
unfolding strip_prefix
strip_prefix-append [] s = refl
strip_prefix-append (b ∷ p) s = rw (==_refl b, strip_prefix-append p s) refl

pub strip_prefix_sound : (p s rest : Bytes) → strip_prefix p s ≡ some rest → s ≡ p ++ rest
unfolding strip_prefix
strip_prefix_sound [] s rest h = ground arith
strip_prefix_sound (b ∷ p) [] rest h = absurd (cc)
strip_prefix_sound (b ∷ p) (a ∷ s) rest h = elim (Bool-cases (b == a)) [
  | inl t ↦
      let h' : strip_prefix p s ≡ some rest = rw t at h in
      rw (strip_prefix_sound p s rest h', (==_iff b a).0 t) refl
  | inr f ↦ absurd (let h' : none ≡ some rest = rw f at h in cc)
]

-- `starts_with`.
unfoldable pub starts_with : Bytes → Bytes → Bool
starts_with p s = elim (strip_prefix p s) [ none ↦ false | some rest ↦ true ]

-- A digit below 16, and a byte, in lower-case hexadecimal (`{:02x}`).
abbrev pub hex_digit : ℕ → ℕ
hex_digit n = if ltb n 10 then 48 + n else 87 + n

unfoldable pub lower_hex : Bytes → Bytes
lower_hex [] = []
lower_hex (b ∷ s) = hex_digit (b / 16) ∷ hex_digit (b % 16) ∷ lower_hex s

abbrev prepend : ℕ → List Bytes → List Bytes
prepend b [] = (b ∷ []) ∷ []
prepend b (part ∷ parts) = (b ∷ part) ∷ parts

-- `split` at a byte.
unfoldable pub split : ℕ → Bytes → List Bytes
split sep [] = [] ∷ []
split sep (b ∷ s) = if b == sep then [] ∷ split sep s else prepend b (split sep s)

abbrev prepend_first : ℕ → Option (Bytes × Bytes) → Option (Bytes × Bytes)
prepend_first b none = none
prepend_first b (some (before, after)) = some (b ∷ before, after)

-- `split_once` at a byte.
unfoldable pub split_once : ℕ → Bytes → Option (Bytes × Bytes)
split_once sep [] = none
split_once sep (b ∷ s) = if b == sep then some ([], s) else prepend_first b (split_once sep s)
