-- ===== src/Db/NetworkRepo.antt =====
-- Private network persistence (backend/src/db/network_repo.rs), with the UNIQUE, CHECK and foreign
-- key constraints of backend/migrations/0004_private_networks.sql. A row holds the state itself:
-- its text is read back as that state (`StateNames.state_names_iff`).
use hzelmaim.Prelude.{
  ℕ, ◌+◌, ◌%◌, ◌^◌, Bool, true, false, not, ◌&&◌, ◌||◌, Option, none, some, List, [], ◌∷◌, ◌++◌,
  map, ◌==◌, leb, any, where_rows, find_row, update_rows, count_rows, order_by, if◌then◌else◌,
}
use hzelmaim.Models.User.{Uuid}
use hzelmaim.Models.Network.{PrivateNetwork, NetworkMembership, Ipv4Addr, BridgeName, vmbr, Text}
use hzelmaim.Models.NetworkState.{NetworkState}
use hzelmaim.Models.MembershipState.{MembershipState}
use hzelmaim.World.{M, select, execute, execute_returning, update}

-- `SELECT nextval('bridge_id_seq')`, cast to an `i32` bit pattern.
unfoldable pub next_bridge_id : M ℕ
next_bridge_id =
    execute_returning
      (λ d. (d.bridge_id_seq % 2 ^ 32, record d { bridge_id_seq = d.bridge_id_seq + 1 }))

abbrev bridge_eq : BridgeName → BridgeName → Bool
bridge_eq (vmbr a) (vmbr b) = a == b

-- PRIMARY KEY (id), UNIQUE (bridge_name), UNIQUE (bridge_id).
abbrev pub network_conflict : PrivateNetwork → PrivateNetwork → Bool
network_conflict a b =
    a.id == b.id || bridge_eq a.bridge_name b.bridge_name || a.bridge_id == b.bridge_id

unfoldable pub create : PrivateNetwork → M (Unit {0})
create net = execute λ d.
    if any (network_conflict net) d.networks || not (any (λ u. u.id == net.owner_user_id) d.users)
    then none
    else some (record d { networks = d.networks ++ net ∷ [] })

-- ORDER BY created_at DESC.
abbrev pub newest_first : PrivateNetwork → PrivateNetwork → Bool
newest_first a b = leb b.created_at a.created_at

abbrev oldest_first : NetworkMembership → NetworkMembership → Bool
oldest_first a b = leb a.created_at b.created_at

unfoldable pub list_for_user : Uuid → M (List PrivateNetwork)
list_for_user user_id =
    select (λ d. order_by newest_first (where_rows (λ n. n.owner_user_id == user_id) d.networks))

unfoldable pub get : Uuid → M (Option PrivateNetwork)
get network_id = select (λ d. find_row (λ n. n.id == network_id) d.networks)

unfoldable pub update_state : Uuid → NetworkState → M (Unit {0})
update_state network_id state = update λ d. record d {
  networks = update_rows (λ n. n.id == network_id) (λ n. record n { state = state }) d.networks;
}

-- DELETE, refused while a membership refers to the network.
unfoldable pub delete : Uuid → M (Unit {0})
delete network_id = execute λ d.
    if any (λ m. m.network_id == network_id) d.memberships
    then none
    else some (record d { networks = where_rows (λ n. not (n.id == network_id)) d.networks })

unfoldable pub list_members : Uuid → M (List NetworkMembership)
list_members network_id =
    select (λ d. order_by oldest_first (where_rows (λ m. m.network_id == network_id) d.memberships))

unfoldable pub list_for_container : Uuid → M (List NetworkMembership)
list_for_container container_id =
    select
      λ d. order_by oldest_first (where_rows (λ m. m.container_id == container_id) d.memberships)

-- PRIMARY KEY (id), UNIQUE (network_id, container_id), UNIQUE (network_id, private_ip) and
-- UNIQUE (container_id, net_index).
abbrev pub member_conflict : NetworkMembership → NetworkMembership → Bool
member_conflict a b =
    a.id == b.id
    || (a.network_id == b.network_id && a.container_id == b.container_id)
    || (a.network_id == b.network_id && a.private_ip == b.private_ip)
    || (a.container_id == b.container_id && a.net_index == b.net_index)

-- CHECK (net_index BETWEEN 1 AND 15).
abbrev pub slot_in_range : ℕ → Bool
slot_in_range i = leb 1 i && leb i 15

unfoldable pub insert_member : NetworkMembership → M (Unit {0})
insert_member m = execute λ d.
    if any (member_conflict m) d.memberships
      || not (slot_in_range m.net_index)
      || not (any (λ n. n.id == m.network_id) d.networks)
      || not (any (λ c. c.id == m.container_id) d.containers)
    then none
    else some (record d { memberships = d.memberships ++ m ∷ [] })

unfoldable pub update_member_state : Uuid → MembershipState → M (Unit {0})
update_member_state member_id state = update λ d. record d {
  memberships =
      update_rows (λ m. m.id == member_id) (λ m. record m { state = state }) d.memberships;
}

unfoldable pub delete_member : Uuid → Uuid → M (Unit {0})
delete_member network_id container_id = update λ d. record d {
  memberships =
      where_rows (λ m. not (m.network_id == network_id && m.container_id == container_id))
        d.memberships;
}

unfoldable pub used_ips : Uuid → M (List Ipv4Addr)
used_ips network_id =
    select
      (λ d. map (λ m. m.private_ip) (where_rows (λ m. m.network_id == network_id) d.memberships))

unfoldable pub used_net_indices : Uuid → M (List ℕ)
used_net_indices container_id =
    select
      λ d. map (λ m. m.net_index) (where_rows (λ m. m.container_id == container_id) d.memberships)

-- state IN ('creating', 'active')
abbrev pub is_live : NetworkState → Bool
is_live NetworkState.creating = true
is_live NetworkState.active = true
is_live _ = false

unfoldable pub count_active : M ℕ
count_active = select (λ d. count_rows (λ n. is_live n.state) d.networks)

unfoldable pub count_for_user : Uuid → M ℕ
count_for_user user_id =
    select (λ d. count_rows (λ n. n.owner_user_id == user_id && is_live n.state) d.networks)

unfoldable pub rename : Uuid → Text → M (Unit {0})
rename network_id name = update λ d. record d {
  networks = update_rows (λ n. n.id == network_id) (λ n. record n { name = name }) d.networks;
}
