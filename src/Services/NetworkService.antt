-- ===== src/Services/NetworkService.antt =====
-- Private networks (backend/src/services/network_service.rs).
pub mod Quota
pub mod Creation
pub mod Members
pub mod Isolation
pub mod Attachment
pub mod Requests
use hzelmaim.Prelude.{
  ℕ, Bool, true, false, not, ◌||◌, none, some, List, ◌==◌, leb, ltb, any, find_row, if◌then◌else◌,
}
use hzelmaim.Prelude.Text.{trim, byte_len, is_empty}
use hzelmaim.Api.{
  Result, ok, err, ok_or, internal, forbidden, bad_request, validation, container_not_found,
  network_not_found, network_member_not_found,
}
use hzelmaim.Models.User.{Uuid, AuthenticatedUser, effective_role, is_admin}
use hzelmaim.Models.Container.{has, perm_view, perm_networks}
use hzelmaim.Models.Network.{
  PrivateNetwork, NetworkMembership, Text, vmbr, CreateNetworkRequest, RenameNetworkRequest,
  AddMemberRequest,
}
use hzelmaim.Models.NetworkState.{NetworkState}
use hzelmaim.Models.MembershipState.{MembershipState}
use hzelmaim.Models.Proxmox.{ContainerRuntimeStatus, status_eq}
use hzelmaim.World.{
  ◌>>=◌, ◌>>◌, M, Effect, pure, lift, attempt, match_result, utc_now, new_v4, call,
}
use hzelmaim.Db.NetworkRepo
use hzelmaim.Db.ContainerRepo
use hzelmaim.Services.AuditService
use hzelmaim.Models.IpNet.{IpNet}
use hzelmaim.Services.Addressing.{validate_cidr, check_no_overlap, allocate_ip, first_unused, slots}

abbrev pub max_networks_per_node : ℕ
max_networks_per_node = 100

abbrev pub max_networks_per_user : ℕ
max_networks_per_user = 5

-- A network name, trimmed, has 1 to 100 bytes.
unfoldable pub validate_name : Text → Result Text
validate_name raw =
    let name = trim raw in
    if is_empty name || ltb 100 (byte_len name) then err validation else ok name

unfoldable pub require_network_owner : AuthenticatedUser → PrivateNetwork → Result (Unit {0})
require_network_owner actor network =
    if is_admin (effective_role actor) || actor.user_id == network.owner_user_id
    then ok tt
    else err forbidden

unfoldable pub require_container_permission : AuthenticatedUser → Uuid → ℕ → M (Unit {0})
require_container_permission actor container_id flag =
    if is_admin (effective_role actor) then pure tt else do
      perms ← ContainerRepo.get_permissions container_id actor.user_id
      if not (has perms flag) then lift (err forbidden) else pure tt

unfoldable pub list_networks : AuthenticatedUser → M (List PrivateNetwork)
list_networks actor = NetworkRepo.list_for_user actor.user_id

unfoldable pub get_network : AuthenticatedUser → Uuid → M PrivateNetwork
get_network actor network_id = do
  found ← NetworkRepo.get network_id
  network ← lift (ok_or found network_not_found)
  lift (require_network_owner actor network)
  pure network

unfoldable pub rename_network : AuthenticatedUser → Uuid → RenameNetworkRequest → M PrivateNetwork
rename_network actor network_id req = do
  network ← get_network actor network_id
  name ← lift (validate_name req.name)
  NetworkRepo.rename network.id name
  found ← NetworkRepo.get network_id
  lift (ok_or found internal)

unfoldable pub delete_network : AuthenticatedUser → Uuid → M (Unit {0})
delete_network actor network_id = do
  network ← get_network actor network_id
  members ← NetworkRepo.list_members network_id
  if any (λ _. true) members then lift (err bad_request) else do
    NetworkRepo.update_state network_id NetworkState.deleting
    call (Effect.delete_bridge network.bridge_name) (λ _ _. tt)
    NetworkRepo.delete network_id
    AuditService.log_success (some actor.user_id) none "network.delete"

unfoldable pub list_members : AuthenticatedUser → Uuid → M (List NetworkMembership)
list_members actor network_id = do
  network ← get_network actor network_id
  NetworkRepo.list_members network.id

unfoldable pub list_for_container : AuthenticatedUser → Uuid → M (List NetworkMembership)
list_for_container actor container_id = do
  require_container_permission actor container_id perm_view
  NetworkRepo.list_for_container container_id

abbrev is_active : NetworkState → Bool
is_active NetworkState.active = true
is_active _ = false

-- `container_status(…).await.unwrap_or(Unknown) == Running`.
abbrev is_running : Result ContainerRuntimeStatus → Bool
is_running (ok s) = status_eq s ContainerRuntimeStatus.running
is_running (err e) = false

-- The best-effort SSH command that follows while the container runs: a failure is only reported.
hot_configure : ℕ → M (Unit {0})
hot_configure ctid = do
  status ← attempt (call (Effect.container_status ctid) (λ e n. e.proxmox_status n))
  if is_running status
      then (do _ ← attempt (call {A = Unit {0}} (Effect.exec_command ctid) (λ _ _. tt)); pure tt)
      else pure tt

module _ (ip : IpNet) where
  open ip use {parse, to_string, prefix_len}

  unfoldable pub create_network : AuthenticatedUser → CreateNetworkRequest → M PrivateNetwork
  create_network actor req = do
    name ← lift (validate_name req.name)
    cidr_net ← lift (validate_cidr ip req.cidr)
    node_count ← NetworkRepo.count_active
    if leb max_networks_per_node node_count then lift (err bad_request) else do
      user_count ← NetworkRepo.count_for_user actor.user_id
      if leb max_networks_per_user user_count then lift (err bad_request) else do
        existing ← NetworkRepo.list_for_user actor.user_id
        lift (check_no_overlap ip cidr_net existing)
        bridge_id ← NetworkRepo.next_bridge_id
        id ← new_v4
        now ← utc_now
        let net : PrivateNetwork = record {
          id = id;
          owner_user_id = actor.user_id;
          name = name;
          bridge_name = vmbr bridge_id;
          bridge_id = bridge_id;
          cidr = to_string cidr_net;
          state = NetworkState.creating;
          created_at = now;
        }
        NetworkRepo.create net
        call (Effect.create_bridge bridge_id) (λ _ _. tt)
        NetworkRepo.update_state id NetworkState.active
        AuditService.log_success (some actor.user_id) none "network.create"
        pure (record net { state = NetworkState.active })

  unfoldable pub add_member : AuthenticatedUser → Uuid → AddMemberRequest → M NetworkMembership
  unfolding hot_configure
  add_member actor network_id req = do
    let container_id : Uuid = req.container_id
    net ← get_network actor network_id
    if not (is_active net.state) then lift (err bad_request) else do
      require_container_permission actor container_id perm_networks
      found ← ContainerRepo.get container_id
      container ← lift (ok_or found container_not_found)
      existing_members ← NetworkRepo.list_members network_id
      if any (λ m. m.container_id == container_id) existing_members
          then lift (err bad_request)
          else do
            used_ips ← NetworkRepo.used_ips network_id
            cidr_net ← lift (ok_or (parse net.cidr) internal)
            private_ip ← lift (allocate_ip ip cidr_net used_ips)
            used_indices ← NetworkRepo.used_net_indices container_id
            net_index ← lift (ok_or (first_unused used_indices slots) bad_request)
            id ← new_v4
            now ← utc_now
            let membership : NetworkMembership = record {
              id = id;
              network_id = network_id;
              container_id = container_id;
              private_ip = private_ip;
              net_index = net_index;
              state = MembershipState.attaching;
              created_at = now;
            }
            NetworkRepo.insert_member membership
            attached ← attempt (
                call {A = Unit {0}}
                  (Effect.attach_container_nic container.proxmox_ctid net_index net.bridge_name
                    private_ip (prefix_len cidr_net))
                  (λ _ _. tt))
            match_result attached
                (λ _. do
                  hot_configure container.proxmox_ctid
                  NetworkRepo.update_member_state id MembershipState.active
                  AuditService.log_success (some actor.user_id) (some container_id)
                      "network.member.add"
                  pure (record membership { state = MembershipState.active }))
                (λ e. do
                  _ ← attempt (NetworkRepo.update_member_state id MembershipState.failed)
                  lift (err e))

unfoldable pub remove_member : AuthenticatedUser → Uuid → Uuid → M (Unit {0})
unfolding hot_configure
remove_member actor network_id container_id = do
  net ← get_network actor network_id
  require_container_permission actor container_id perm_networks
  members ← NetworkRepo.list_members network_id
  member ←
      lift (ok_or (find_row (λ m. m.container_id == container_id) members) network_member_not_found)
  found ← ContainerRepo.get container_id
  container ← lift (ok_or found container_not_found)
  NetworkRepo.update_member_state member.id MembershipState.detaching
  hot_configure container.proxmox_ctid
  detached ← attempt (
      call {A = Unit {0}} (Effect.detach_container_nic container.proxmox_ctid member.net_index)
        (λ _ _. tt))
  match_result detached
      (λ _. do
        NetworkRepo.delete_member network_id container_id
        AuditService.log_success (some actor.user_id) (some container_id) "network.member.remove")
      (λ e. do
        _ ← attempt (NetworkRepo.update_member_state member.id MembershipState.failed)
        lift (err e))
