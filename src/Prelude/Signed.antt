-- ===== src/Prelude/Signed.antt =====
-- Signed integers, and the casts of unsigned integers to them.
use Prim.Native.Nat.{ℕ, ◌-◌, ◌%◌, ◌^◌, ◌/◌}
use hzelmaim.Prelude.Tests.{ltb, if◌then◌else◌}

-- `negsuc n` is -(n + 1).
pub data ℤ : Type 0 where
  pos negsuc : ℕ → ℤ

-- `n as i{w}`: the low w bits of n, read in two's complement.
unfoldable pub as_signed : ℕ → ℕ → ℤ
as_signed w n =
    let low : ℕ = n % 2 ^ w in if ltb low (2 ^ w / 2) then pos low else negsuc (2 ^ w - 1 - low)
