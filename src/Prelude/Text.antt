-- ===== src/Prelude/Text.antt =====
-- Texts that the program trims and measures, as lists of Unicode scalar values.
use Prim.Native.Nat.{ℕ, zero, suc, ◌+◌, ◌*◌, ◌%◌}
use Prim.Native.Char.{code}
use Prim.Native.String.{String}
use mathlib.Core.Bool.{Bool, true, false, ◌&&◌, ◌||◌}
use mathlib.Core.List.{List, [], ◌∷◌, reverse}
use hzelmaim.Prelude.Tests.{leb, ltb, ◌==◌, if◌then◌else◌}

-- The text of a literal.
abbrev pub codes : String → List ℕ
codes String.[] = []
codes (String.◌∷◌ c s) = code c ∷ codes s

-- `char::is_whitespace`: the Unicode property White_Space.
unfoldable pub is_whitespace : ℕ → Bool
is_whitespace c =
    (leb 9 c && leb c 13)
    || c == 32
    || c == 0x85
    || c == 0xa0
    || c == 0x1680
    || (leb 0x2000 c && leb c 0x200a)
    || c == 0x2028
    || c == 0x2029
    || c == 0x202f
    || c == 0x205f
    || c == 0x3000

unfoldable pub trim_start : List ℕ → List ℕ
trim_start [] = []
trim_start (c ∷ s) = if is_whitespace c then trim_start s else c ∷ s

-- `str::trim`.
unfoldable pub trim : List ℕ → List ℕ
unfolding trim_start
trim s = reverse (trim_start (reverse (trim_start s)))

-- The characters of a text that is given by its bytes in UTF-8: `rest` bytes of the character
-- that has begun with the bits `begun` are still to come.
unfoldable pub chars_from : ℕ → ℕ → List ℕ → List ℕ
chars_from begun rest [] = []
chars_from begun zero (b ∷ s) =
    if ltb b 0x80
    then b ∷ chars_from 0 0 s
    else if ltb b 0xe0
    then chars_from (b % 0x20) 1 s
    else if ltb b 0xf0
    then chars_from (b % 0x10) 2 s
    else chars_from (b % 0x08) 3 s
chars_from begun (suc zero) (b ∷ s) = (begun * 0x40 + b % 0x40) ∷ chars_from 0 0 s
chars_from begun (suc (suc rest)) (b ∷ s) = chars_from (begun * 0x40 + b % 0x40) (suc rest) s

-- `chars()` of a text that is given by its bytes.
abbrev pub chars : List ℕ → List ℕ
chars s = chars_from 0 0 s

-- The bytes of a character in UTF-8.
abbrev pub utf8_len : ℕ → ℕ
utf8_len c = if ltb c 0x80 then 1 else if ltb c 0x800 then 2 else if ltb c 0x10000 then 3 else 4

-- `str::len`: the bytes of a text in UTF-8.
unfoldable pub byte_len : List ℕ → ℕ
byte_len [] = 0
byte_len (c ∷ s) = utf8_len c + byte_len s

-- `str::is_empty`.
abbrev pub is_empty : List ℕ → Bool
is_empty [] = true
is_empty (c ∷ s) = false
