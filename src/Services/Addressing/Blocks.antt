-- ===== src/Services/Addressing/Blocks.antt =====
-- Arithmetic of address blocks: runs of 2 ^ k addresses that begin at a multiple of 2 ^ k.
use native.Mathlib.Nat.{
  add-zero, add-suc, pow-suc, mul_assoc, mul_comm, div-add-mod, mul-le-mul_right,
}
use native.Mathlib.Decide.{dec_le}
use hzelmaim.Prelude.{ℕ, zero, suc, ◌+◌, ◌*◌, ◌/◌, ◌%◌, ◌^◌, ◌≤◌, ◌<◌, ◌≡◌, sym, ap, ◌∙◌, arith}

pub pow-add : (k d : ℕ) → 2 ^ (k + d) ≡ 2 ^ d * 2 ^ k
pow-add k zero = rw add-zero (omega arith)
pow-add k (suc d) =
    rw (add-suc k d, pow-suc 2 (k + d), pow-suc 2 d)
      (omega (arith, ap (λ (t : ℕ). t * 2) (pow-add k d)))

-- Two multiples of s that differ are at least s apart.
apart : (s q m : ℕ) → q * s < m * s → q * s + s ≤ m * s
apart s q m h = elim (dec_le m q) [
  | yes p ↦ let down : m * s ≤ q * s = grind arith in absurd (omega arith)
  | no p ↦ let up : suc q * s ≤ m * s = mul-le-mul_right s (omega arith) in omega arith
]

-- A number with no remainder is the quotient's multiple.
multiple : (s a : ℕ) → a % s ≡ 0 → a ≡ a / s * s
multiple s a z = omega (arith, div-add-mod a s, mul_comm s (a / s))

-- A block inside the whole of e larger blocks ends there at the latest.
pub block_fits : (k d e a : ℕ) → a % 2 ^ k ≡ 0 → a < e * 2 ^ (k + d) → a + 2 ^ k ≤ e * 2 ^ (k + d)
block_fits k d e a z h =
    let end : e * 2 ^ (k + d) ≡ e * 2 ^ d * 2 ^ k =
      ap (λ (t : ℕ). e * t) (pow-add k d) ∙ sym (mul_assoc e (2 ^ d) (2 ^ k)) in
    omega (
      arith,
      end,
      multiple (2 ^ k) a z,
      apart (2 ^ k) (a / 2 ^ k) (e * 2 ^ d) (omega (arith, end, multiple (2 ^ k) a z)),
    )

-- Two blocks that share an address are nested: the larger holds the start of the smaller.
pub block_nested :
    (k d a b x : ℕ)
    → a % 2 ^ k ≡ 0
    → b % 2 ^ (k + d) ≡ 0
    → a ≤ x
    → x < a + 2 ^ k
    → b ≤ x
    → x < b + 2 ^ (k + d)
    → (b ≤ a) × (a < b + 2 ^ (k + d))
block_nested k d a b x za zb la ua lb ub = (
  elim (dec_le b a) [
    | yes p ↦ p
    | no p ↦
        absurd (omega (arith, block_fits k d (b / 2 ^ (k + d)) a za, multiple (2 ^ (k + d)) b zb))
  ],
  omega arith,
)
