-- ===== src/Models/Network.antt =====
-- Private networks and memberships (backend/src/models/network.rs). An address is a number
-- below 2 ^ 32, and its dotted text is not modelled; the CIDR is kept as its text.
use hzelmaim.Prelude.{ℕ, List, String}
use hzelmaim.Models.User.{Uuid, DateTime}
use hzelmaim.Models.NetworkState.{NetworkState}
use hzelmaim.Models.MembershipState.{MembershipState}

-- `std::net::Ipv4Addr`, in host byte order.
abbrev pub Ipv4Addr : Type 0
Ipv4Addr = ℕ

-- A text that the program trims and measures: its Unicode scalar values.
abbrev pub Text : Type 0
Text = List ℕ

-- The device name `vmbr{N}`, which its number determines.
pub data BridgeName : Type 0 where
  vmbr : ℕ → BridgeName

pub record PrivateNetwork : Type 0 where
  pub id : Uuid
  pub owner_user_id : Uuid
  pub name : Text
  pub bridge_name : BridgeName
  pub bridge_id : ℕ
  pub cidr : String
  pub state : NetworkState
  pub created_at : DateTime

pub record NetworkMembership : Type 0 where
  pub id : Uuid
  pub network_id : Uuid
  pub container_id : Uuid
  pub private_ip : Ipv4Addr
  pub net_index : ℕ
  pub state : MembershipState
  pub created_at : DateTime

pub record CreateNetworkRequest : Type 0 where
  pub name : Text
  pub cidr : String

pub record RenameNetworkRequest : Type 0 where
  pub name : Text

pub record AddMemberRequest : Type 0 where
  pub container_id : Uuid
