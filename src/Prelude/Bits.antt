-- ===== src/Prelude/Bits.antt =====
-- Laws of the bitwise AND on the native numbers, from its recursion on binary digits.
use Prim.Native.Nat.{ℕ, zero, suc, ◌+◌, ◌*◌, ◌/◌, ◌%◌, ◌≤◌, min, digits, bit_and, bit_and-bitwise}
use mathlib.Core.Path.{◌≡◌, refl}
use native.Mathlib.Omega.{arith}

abbrev both : ℕ → ℕ → ℕ → ℕ
both fuel a b = digits (λ _. zero) min fuel a b

-- Any fuel from the left operand up gives the same digits.
both_enough : (n m a b : ℕ) → a ≤ n → a ≤ m → both n a b ≡ both m a b
both_enough zero zero a b p q = refl
both_enough zero (suc m) zero b p q = refl
both_enough (suc n) zero zero b p q = refl
both_enough (suc n) (suc m) zero b p q = refl
both_enough (suc n) (suc m) (suc a) b p q =
    omega (arith, both_enough n m (suc a / 2) (b / 2) (omega arith) (omega arith))
both_enough zero (suc m) (suc a) b p q = absurd (omega arith)
both_enough (suc n) zero (suc a) b p q = absurd (omega arith)

pub zero-bit_and : (b : ℕ) → bit_and 0 b ≡ 0
zero-bit_and b = bit_and-bitwise 0 b

bit_and_digit : (a b : ℕ) → bit_and a b ≡ bit_and (a / 2) (b / 2) * 2 + min (a % 2) (b % 2)
bit_and_digit zero b = omega (arith, zero-bit_and b, zero-bit_and (b / 2))
bit_and_digit (suc a) b = omega (
  arith,
  bit_and-bitwise (suc a) b,
  bit_and-bitwise (suc a / 2) (b / 2),
  both_enough a (suc a / 2) (suc a / 2) (b / 2) (omega arith) (omega arith),
)

comm_below : (n a b : ℕ) → a ≤ n → b ≤ n → bit_and a b ≡ bit_and b a
comm_below zero zero zero p q = refl
comm_below zero (suc a) b p q = absurd (omega arith)
comm_below zero zero (suc b) p q = absurd (omega arith)
comm_below (suc n) a b p q = omega (
  arith,
  bit_and_digit a b,
  bit_and_digit b a,
  comm_below n (a / 2) (b / 2) (omega arith) (omega arith),
)

pub bit_and_comm : (a b : ℕ) → bit_and a b ≡ bit_and b a
bit_and_comm a b = comm_below (a + b) a b (omega arith) (omega arith)

half-bit_and : (a b : ℕ) → bit_and a b / 2 ≡ bit_and (a / 2) (b / 2)
half-bit_and a b = omega (arith, bit_and_digit a b)

parity-bit_and : (a b : ℕ) → bit_and a b % 2 ≡ min (a % 2) (b % 2)
parity-bit_and a b = omega (arith, bit_and_digit a b)

assoc_below : (n a b c : ℕ) → a ≤ n → bit_and (bit_and a b) c ≡ bit_and a (bit_and b c)
assoc_below zero zero b c p = rw (zero-bit_and b, zero-bit_and c, zero-bit_and (bit_and b c))
assoc_below zero (suc a) b c p = absurd (omega arith)
assoc_below (suc n) a b c p =
    rw (bit_and_digit (bit_and a b) c, bit_and_digit a (bit_and b c))
      (rw (half-bit_and a b, half-bit_and b c, parity-bit_and a b, parity-bit_and b c)
        (omega (arith, assoc_below n (a / 2) (b / 2) (c / 2) (omega arith))))

pub bit_and_assoc : (a b c : ℕ) → bit_and (bit_and a b) c ≡ bit_and a (bit_and b c)
bit_and_assoc a b c = assoc_below a a b c (omega arith)

idem_below : (n a : ℕ) → a ≤ n → bit_and a a ≡ a
idem_below zero zero p = refl
idem_below zero (suc a) p = absurd (omega arith)
idem_below (suc n) a p = omega (arith, bit_and_digit a a, idem_below n (a / 2) (omega arith))

pub bit_and_idem : (a : ℕ) → bit_and a a ≡ a
bit_and_idem a = idem_below a a (omega arith)

-- The lowest bit.
pub bit_and_one : (a : ℕ) → bit_and a 1 ≤ 1
bit_and_one a = omega (arith, bit_and_digit a 1, bit_and_comm (a / 2) 0, zero-bit_and (a / 2))
