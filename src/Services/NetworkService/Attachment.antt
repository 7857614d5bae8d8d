-- ===== src/Services/NetworkService/Attachment.antt =====
-- Where the address and the slot of a membership lie, and lemmas on the statements that touch it.
pub mod Requests
pub mod Adding
use hzelmaim.Prelude.{
  ◌+◌, ◌≤◌, ◌<◌, ◌≡◌, refl, ◌∙◌, Bool, true, false, not, ◌==◌, ◌&&◌, Option, some, List, String,
  All, AllPairs, All-both, All-of_holds, arith, All-where_rows, All-update_rows, All-map_with,
  All-of_any, AllPairs-where_rows, AllPairs-update_rows, if◌then◌else◌, find_column,
  find_column-snoc, find_column-update_rows, find_column-where_rows,
}
use hzelmaim.Models.User.{Uuid}
use hzelmaim.Models.IpNet.{IpNet, block}
use hzelmaim.Models.Network.{PrivateNetwork, NetworkMembership, Text}
use hzelmaim.Models.NetworkState.{NetworkState}
use hzelmaim.Models.MembershipState.{MembershipState}
use hzelmaim.World.{Db}
use hzelmaim.World.Keeps.{Keeps, Keeps-update, Keeps-checked}
use hzelmaim.Db.NetworkRepo
use hzelmaim.Db.NetworkRepo.{member_conflict, slot_in_range}
use hzelmaim.Services.AuditService

-- The CIDR stored for a network.
abbrev pub cidr_of : Uuid → List PrivateNetwork → Option String
cidr_of id nets = find_column (λ n. n.cidr) (λ n. n.id == id) nets

module _ (ip : IpNet) where
  open ip use {Ipv4Net, parse, network, prefix_len, contains}

  -- A slot from 1 to 15, and an address inside the block of the network that is neither one of its
  -- first two addresses nor its last.
  pub record Placed (nets : List PrivateNetwork) (m : NetworkMembership) : Type 0 where
    pub slot : slot_in_range m.net_index ≡ true
    pub cidr : String
    pub stored : cidr_of m.network_id nets ≡ some cidr
    pub net : Ipv4Net
    pub parses : parse cidr ≡ some net
    pub inside : contains net m.private_ip ≡ true
    pub above : network net + 2 ≤ m.private_ip
    pub below : m.private_ip + 1 < network net + block (prefix_len net)

  -- Every membership is placed in its network, and no two share an id, an address or a container
  -- in one network, or a slot of one container.
  pub record Attached (d : Db) : Type 0 where
    pub placed : All (Placed d.networks) d.memberships
    pub unique : AllPairs (λ a b. member_conflict a b ≡ false) d.memberships

  pub same_Attached :
      (d e : Db) → e.networks ≡ d.networks → e.memberships ≡ d.memberships → Attached d → Attached e
  same_Attached d e p q a = record { placed = rw (p, q) a.placed; unique = rw q a.unique }

  -- Networks that still have the same blocks under the ids in use.
  pub networks-Attached :
      (d : Db) (nets : List PrivateNetwork)
      → All
          (λ m.
            (c : String)
            → cidr_of m.network_id d.networks ≡ some c
            → cidr_of m.network_id nets ≡ some c)
          d.memberships
      → Attached d
      → Attached (record d { networks = nets })
  networks-Attached d nets kept a = record {
    placed =
        All-both _ _ _ d.memberships
          (λ m k p. record {
            slot = p.slot;
            cidr = p.cidr;
            stored = k p.cidr p.stored;
            net = p.net;
            parses = p.parses;
            inside = p.inside;
            above = p.above;
            below = p.below;
          })
          kept a.placed;
    unique = a.unique;
  }

  pub update_state-Attached :
      (id : Uuid) (s : NetworkState) → Keeps Attached (NetworkRepo.update_state id s)
  unfolding NetworkRepo.update_state
  update_state-Attached id s = Keeps-update _ λ d a.
      networks-Attached d _
        (All-of_holds _ d.memberships (λ m c h.
          find_column-update_rows (λ n. n.cidr) _ (λ n. n.id == id) (λ n. record n { state = s })
            d.networks (λ _. refl) (λ _. refl)
          ∙ h))
        a

  pub rename-Attached : (id : Uuid) (name : Text) → Keeps Attached (NetworkRepo.rename id name)
  unfolding NetworkRepo.rename
  rename-Attached id name = Keeps-update _ λ d a.
      networks-Attached d _
        (All-of_holds _ d.memberships (λ m c h.
          find_column-update_rows (λ n. n.cidr) _ (λ n. n.id == id) (λ n. record n { name = name })
            d.networks (λ _. refl) (λ _. refl)
          ∙ h))
        a

  pub create-Attached : (net : PrivateNetwork) → Keeps Attached (NetworkRepo.create net)
  unfolding NetworkRepo.create
  create-Attached net = Keeps-checked _ _ λ d _ a.
      networks-Attached d _
        (All-of_holds _ d.memberships
          (λ m c h. find_column-snoc (λ n. n.cidr) _ d.networks net c h))
        a

  -- A network with members is not deleted.
  pub delete-Attached : (id : Uuid) → Keeps Attached (NetworkRepo.delete id)
  unfolding NetworkRepo.delete
  delete-Attached id = Keeps-checked _ _ λ d unused a.
      networks-Attached d _
        (All-map_with _ _ d.memberships
          (λ m k c h.
            find_column-where_rows (λ n. n.cidr) (λ n. n.id == m.network_id) (λ n. not (n.id == id))
              d.networks (λ n e. ground arith)
            ∙ h)
          (All-of_any (λ m. m.network_id == id) d.memberships unused))
        a

  pub update_member_state-Attached :
      (id : Uuid) (s : MembershipState) → Keeps Attached (NetworkRepo.update_member_state id s)
  unfolding NetworkRepo.update_member_state
  update_member_state-Attached id s = Keeps-update _ λ d a. record {
    placed =
        All-update_rows _ _ (λ m. m.id == id) (λ m. record m { state = s }) d.memberships
          (λ m p. same_place (m.id == id) s m p) a.placed;
    unique =
        AllPairs-update_rows _ (λ m. m.id == id) (λ m. record m { state = s }) d.memberships
          (λ x y r. ground arith) a.unique;
  }
    where
      same_place :
          {nets : List PrivateNetwork} (b : Bool) (s : MembershipState) (m : NetworkMembership)
          → Placed nets m
          → Placed nets (if b then record m { state = s } else m)
      same_place false s m p = p
      same_place true s m p = record {
        slot = p.slot;
        cidr = p.cidr;
        stored = p.stored;
        net = p.net;
        parses = p.parses;
        inside = p.inside;
        above = p.above;
        below = p.below;
      }

  pub delete_member-Attached : (n c : Uuid) → Keeps Attached (NetworkRepo.delete_member n c)
  unfolding NetworkRepo.delete_member
  delete_member-Attached n c = Keeps-update _ λ d a. record {
    placed =
        All-where_rows _ (λ m. not (m.network_id == n && m.container_id == c)) d.memberships
          a.placed;
    unique =
        AllPairs-where_rows _ (λ m. not (m.network_id == n && m.container_id == c)) d.memberships
          a.unique;
  }

  pub log_success-Attached :
      (u c : Option Uuid) (action : String) → Keeps Attached (AuditService.log_success u c action)
  log_success-Attached =
      AuditService.log_success-Keeps Attached
        (λ d l a. same_Attached d (record d { audit_logs = l }) refl refl a)
