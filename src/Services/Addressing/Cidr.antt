-- ===== src/Services/Addressing/Cidr.antt =====
-- What `validate_cidr` guarantees, over any address of the network.
use hzelmaim.Prelude.{
  ℕ, ◌+◌, ◌-◌, ◌*◌, ◌^◌, ◌≤◌, ◌<◌, ◌≡◌, sym, subst, ◌↔◌, ◌⊎◌, Bool, true, any, some, String, arith,
}
use hzelmaim.Api.{ok}
use hzelmaim.Models.IpNet.{IpNet, Laws, IsLiteral, block}
use native.Mathlib.Nat.{one-le-pow, le_refl}
use hzelmaim.Models.Network.{Ipv4Addr}
use hzelmaim.Services.Addressing.{validate_cidr, private_ranges, in_range}
use hzelmaim.Services.Addressing.Blocks.{block_fits}

-- RFC 1918: 10.0.0.0/8, 172.16.0.0/12 and 192.168.0.0/16.
abbrev pub IsPrivate : Ipv4Addr → Type 0
IsPrivate a =
    ((10 * 2 ^ 24 ≤ a) × (a < 11 * 2 ^ 24))
    ⊎ ((172 * 2 ^ 24 + 16 * 2 ^ 16 ≤ a) × (a < 172 * 2 ^ 24 + 32 * 2 ^ 16))
    ⊎ ((192 * 2 ^ 24 + 168 * 2 ^ 16 ≤ a) × (a < 192 * 2 ^ 24 + 169 * 2 ^ 16))

module _ (ip : IpNet) (laws : Laws ip) where
  open ip use {Ipv4Net, parse, network, prefix_len, contains}

  contains_bounds :
      (n : Ipv4Net) (a base p : ℕ)
      → network n ≡ base
      → prefix_len n ≡ p
      → (contains n a ≡ true) ↔ ((base ≤ a) × (a < base + block p))
  contains_bounds n a base p eb ep = rw (← eb, ← ep) (laws.contains_iff n a)

  literal_bounds :
      {s : String} {base p : ℕ} (l : IsLiteral ip s base p) (a : Ipv4Addr)
      → in_range ip (parse s) a ≡ true
      → (base ≤ a) × (a < base + block p)
  literal_bounds l a h = (contains_bounds l.net a _ _ l.at_base l.has_prefix).0 (rw l.parses at h)

  literal_contains :
      {s : String} {base p : ℕ} (l : IsLiteral ip s base p) (a : Ipv4Addr)
      → base ≤ a
      → a < base + block p
      → in_range ip (parse s) a ≡ true
  literal_contains l a h k =
      rw l.parses ((contains_bounds l.net a _ _ l.at_base l.has_prefix).1 (h, k))

  abbrev base_private : Ipv4Net → Bool
  base_private n = any (λ r. in_range ip r (network n)) (private_ranges ip)

  IsPrivate-base : (n : Ipv4Net) → base_private n ≡ true → IsPrivate (network n)
  IsPrivate-base n h = ground (
    arith,
    literal_bounds laws.ten (network n),
    literal_bounds laws.one_seven_two (network n),
    literal_bounds laws.one_nine_two (network n),
  )

  base_private_of : (n : Ipv4Net) → IsPrivate (network n) → base_private n ≡ true
  base_private_of n h = ground (
    arith,
    literal_contains laws.ten (network n),
    literal_contains laws.one_seven_two (network n),
    literal_contains laws.one_nine_two (network n),
  )

  block_in :
      (n : Ipv4Net) (e : ℕ)
      → 16 ≤ prefix_len n
      → network n < e * 2 ^ 16
      → network n + block (prefix_len n) ≤ e * 2 ^ 16
  block_in n e p h =
      let k : ℕ = 32 - prefix_len n in
      let whole : k + (16 - k) ≡ 16 = omega arith in
      subst (λ (t : ℕ). network n + 2 ^ k ≤ e * 2 ^ t) whole
        (block_fits k (16 - k) e (network n) (laws.network_aligned n)
          (subst (λ (t : ℕ). network n < e * 2 ^ t) (sym whole) h))

  -- From a private start and a prefix of at least 16 bits, every address of the block is private.
  whole_block-IsPrivate :
      (n : Ipv4Net) (a : Ipv4Addr)
      → 16 ≤ prefix_len n
      → IsPrivate (network n)
      → contains n a ≡ true
      → IsPrivate a
  whole_block-IsPrivate n a p h c = ground (
    arith,
    (laws.contains_iff n a).0 c,
    block_in n 2816 p,
    block_in n 44064 p,
    block_in n 49321 p,
  )

  block_pos : (p : ℕ) → 0 < block p
  block_pos p = one-le-pow (32 - p) 2 (omega arith)

  pub contains_base : (n : Ipv4Net) → contains n (network n) ≡ true
  contains_base n =
      (laws.contains_iff n (network n)).1 (le_refl _, omega (arith, block_pos (prefix_len n)))

  accepted :
      (cidr : String) (n : Ipv4Net)
      → validate_cidr ip cidr ≡ ok n
      → (parse cidr ≡ some n) × (16 ≤ prefix_len n) × (prefix_len n ≤ 28) × (base_private n ≡ true)
  unfolding validate_cidr
  accepted cidr n h = ground arith

  accepts :
      (cidr : String) (n : Ipv4Net)
      → parse cidr ≡ some n
      → 16 ≤ prefix_len n
      → prefix_len n ≤ 28
      → base_private n ≡ true
      → validate_cidr ip cidr ≡ ok n
  unfolding validate_cidr
  accepts cidr n e l u b = ground arith

  -- `validate_cidr` accepts a text, as the network that it denotes, exactly when its prefix is
  -- between /16 and /28 and every address of the network is private.
  pub validate_cidr_iff :
      (cidr : String) (n : Ipv4Net)
      → (validate_cidr ip cidr ≡ ok n) ↔ (
          (parse cidr ≡ some n)
          × (16 ≤ prefix_len n)
          × (prefix_len n ≤ 28)
          × ((a : Ipv4Addr) → contains n a ≡ true → IsPrivate a))
  validate_cidr_iff cidr n = (
    (λ h.
        let (e, l, u, b) = accepted cidr n h in
        (e, l, u, λ a c. whole_block-IsPrivate n a l (IsPrivate-base n b) c)),
    (λ h. accepts cidr n h.0 h.1 h.2 (base_private_of n (h.3 (network n) (contains_base n)))),
  )
