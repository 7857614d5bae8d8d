-- ===== src/Services/Addressing.antt =====
-- Address blocks, addresses and interface slots of private networks: the helpers without I/O of
-- backend/src/services/network_service.rs.
pub mod Blocks
pub mod Cidr
pub mod Overlap
pub mod Allocation
use hzelmaim.Prelude.{
  ℕ, Bool, false, not, ◌||◌, Option, none, some, List, [], ◌∷◌, String, ◌==◌, leb, ◌&&◌, any,
  if◌then◌else◌,
}
use hzelmaim.Api.{Result, ok, err, ok_or, bad_request, validation}
use hzelmaim.Models.Network.{PrivateNetwork, Ipv4Addr}
use hzelmaim.Models.IpNet.{IpNet}

-- Slots 1 to 15.
abbrev pub slots : List ℕ
slots = 1 ∷ 2 ∷ 3 ∷ 4 ∷ 5 ∷ 6 ∷ 7 ∷ 8 ∷ 9 ∷ 10 ∷ 11 ∷ 12 ∷ 13 ∷ 14 ∷ 15 ∷ []

-- `find` of the first element that is not in a set.
unfoldable pub first_unused : List ℕ → List ℕ → Option ℕ
first_unused used [] = none
first_unused used (x ∷ xs) = if any (λ u. u == x) used then first_unused used xs else some x

-- `skip(1)`.
abbrev pub skip_one : List ℕ → List ℕ
skip_one [] = []
skip_one (x ∷ xs) = xs

module _ (ip : IpNet) where
  open ip use {Ipv4Net, parse, to_string, network, prefix_len, contains, hosts}

  -- `r.contains(&addr)` for a range given by a literal; the literals parse.
  abbrev pub in_range : Option Ipv4Net → Ipv4Addr → Bool
  in_range none addr = false
  in_range (some r) addr = contains r addr

  abbrev pub private_ranges : List (Option Ipv4Net)
  private_ranges = parse "10.0.0.0/8" ∷ parse "172.16.0.0/12" ∷ parse "192.168.0.0/16" ∷ []

  unfoldable pub validate_cidr : String → Result Ipv4Net
  validate_cidr cidr = elim (parse cidr) [
    | none ↦ err validation
    | some net ↦
        if not (any (λ r. in_range r (network net)) private_ranges)
        then err validation
        else if not (leb 16 (prefix_len net) && leb (prefix_len net) 28)
        then err validation
        else ok net
  ]

  unfoldable pub overlaps : Ipv4Net → Option Ipv4Net → Bool
  overlaps new_cidr none = false
  overlaps new_cidr (some existing_cidr) =
      contains new_cidr (network existing_cidr) || contains existing_cidr (network new_cidr)

  unfoldable pub check_no_overlap : Ipv4Net → List PrivateNetwork → Result (Unit {0})
  check_no_overlap new_cidr [] = ok tt
  check_no_overlap new_cidr (net ∷ existing) =
      if overlaps new_cidr (parse net.cidr)
      then err bad_request
      else check_no_overlap new_cidr existing

  unfoldable pub allocate_ip : Ipv4Net → List Ipv4Addr → Result Ipv4Addr
  allocate_ip cidr used = ok_or (first_unused used (skip_one (hosts cidr))) bad_request
