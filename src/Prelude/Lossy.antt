-- ===== src/Prelude/Lossy.antt =====
-- `String::from_utf8_lossy`: each longest beginning of a character that does not go on as UTF-8 has
-- it becomes U+FFFD.
use Prim.Native.Nat.{ℕ, ◌-◌}
use mathlib.Core.Bool.{Bool, ◌&&◌}
use mathlib.Core.List.{[], ◌∷◌, ◌++◌}
use hzelmaim.Prelude.Tests.{leb, ltb, ◌==◌, if◌then◌else◌}
use hzelmaim.Prelude.Bytes.{Bytes}

-- Between characters, or inside one: its bytes so far, how many are to come, and the bounds of the
-- next one.
pub data Partial : Type 0 where
  between : Partial
  inside : Bytes → ℕ → ℕ → ℕ → Partial

abbrev within : ℕ → ℕ → ℕ → Bool
within lo hi b = leb lo b && leb b hi

abbrev replacement : Bytes
replacement = 0xef ∷ 0xbf ∷ 0xbd ∷ []

abbrev first_byte : ℕ → Bytes × Partial
first_byte b =
    if ltb b 0x80
    then (b ∷ [], between)
    else if within 0xc2 0xdf b
    then ([], inside (b ∷ []) 1 0x80 0xbf)
    else if b == 0xe0
    then ([], inside (b ∷ []) 2 0xa0 0xbf)
    else if b == 0xed
    then ([], inside (b ∷ []) 2 0x80 0x9f)
    else if within 0xe1 0xef b
    then ([], inside (b ∷ []) 2 0x80 0xbf)
    else if b == 0xf0
    then ([], inside (b ∷ []) 3 0x90 0xbf)
    else if within 0xf1 0xf3 b
    then ([], inside (b ∷ []) 3 0x80 0xbf)
    else if b == 0xf4
    then ([], inside (b ∷ []) 3 0x80 0x8f)
    else (replacement, between)

abbrev next_byte : Partial → ℕ → Bytes × Partial
next_byte between b = first_byte b
next_byte (inside seen n lo hi) b =
    if within lo hi b
    then (if n == 1
        then (seen ++ b ∷ [], between)
        else ([], inside (seen ++ b ∷ []) (n - 1) 0x80 0xbf))
    else (let (out, state) = first_byte b in (replacement ++ out, state))

abbrev rest_of : Partial → Bytes
rest_of between = []
rest_of (inside seen n lo hi) = replacement

unfoldable pub lossy_from : Partial → Bytes → Bytes
lossy_from state [] = rest_of state
lossy_from state (b ∷ s) = let (out, state') = next_byte state b in out ++ lossy_from state' s

unfoldable pub from_utf8_lossy : Bytes → Bytes
from_utf8_lossy s = lossy_from between s
