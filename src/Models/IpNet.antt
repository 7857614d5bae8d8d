-- ===== src/Models/IpNet.antt =====
-- What the network service uses of the `ipnet` crate: its operations, and what their
-- documentation says of them.
use hzelmaim.Prelude.{
  ℕ, zero, suc, ◌+◌, ◌-◌, ◌*◌, ◌%◌, ◌^◌, ◌≤◌, ◌<◌, ◌≡◌, ◌↔◌, Bool, true, Option, some, List, [],
  ◌∷◌, String,
}
use hzelmaim.Models.Network.{Ipv4Addr}

pub record IpNet : Type 1 where
  pub Ipv4Net : Type 0
  pub parse : String → Option Ipv4Net
  pub to_string : Ipv4Net → String
  pub network : Ipv4Net → Ipv4Addr
  pub prefix_len : Ipv4Net → ℕ
  pub contains : Ipv4Net → Ipv4Addr → Bool
  pub hosts : Ipv4Net → List Ipv4Addr

-- n consecutive numbers from a on.
unfoldable pub range_from : ℕ → ℕ → List ℕ
range_from a zero = []
range_from a (suc n) = a ∷ range_from (suc a) n

-- The number of addresses of a network with this prefix length.
abbrev pub block : ℕ → ℕ
block prefix = 2 ^ (32 - prefix)

module _ (ip : IpNet) where
  open ip use {Ipv4Net, parse, to_string, network, prefix_len, contains, hosts}

  -- A literal that parses as the block at a base address.
  pub record IsLiteral (s : String) (base prefix : ℕ) : Type 0 where
    pub net : Ipv4Net
    pub parses : parse s ≡ some net
    pub at_base : network net ≡ base
    pub has_prefix : prefix_len net ≡ prefix

  pub record Laws : Type 0 where
    pub parse-to_string : (n : Ipv4Net) → parse (to_string n) ≡ some n
    pub prefix_len-le : (n : Ipv4Net) → prefix_len n ≤ 32
    -- The network address has zeros behind the prefix.
    pub network_aligned : (n : Ipv4Net) → network n % block (prefix_len n) ≡ 0
    pub contains_iff :
        (n : Ipv4Net) (a : Ipv4Addr)
        → (contains n a ≡ true) ↔ ((network n ≤ a) × (a < network n + block (prefix_len n)))
    -- For prefixes below 31 the network and the broadcast address are left out.
    pub hosts_lem :
        (n : Ipv4Net)
        → prefix_len n < 31
        → hosts n ≡ range_from (network n + 1) (block (prefix_len n) - 2)
    pub ten : IsLiteral "10.0.0.0/8" (10 * 2 ^ 24) 8
    pub one_seven_two : IsLiteral "172.16.0.0/12" (172 * 2 ^ 24 + 16 * 2 ^ 16) 12
    pub one_nine_two : IsLiteral "192.168.0.0/16" (192 * 2 ^ 24 + 168 * 2 ^ 16) 16
