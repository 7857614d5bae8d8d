-- ===== src/Services/NetworkService/Attachment/Requests.antt =====
-- Lemmas on the places of memberships, for the operations that add none.
use hzelmaim.Prelude.{◌+◌, refl}
use hzelmaim.Models.User.{Uuid, AuthenticatedUser}
use hzelmaim.Models.IpNet.{IpNet}
use hzelmaim.Models.Network.{CreateNetworkRequest, RenameNetworkRequest}
use hzelmaim.World.Keeps.{Keeps, keeps_rules, Keeps-execute_returning}
use hzelmaim.Db.NetworkRepo
use hzelmaim.Db.NetworkRepo.{member_conflict, slot_in_range}
use hzelmaim.Services.NetworkService.{create_network, rename_network, delete_network, remove_member}
use hzelmaim.Services.NetworkService.Members.{
  get-Keeps, list_members-Keeps, get_network-Keeps, permission-Keeps, get_container-Keeps,
}
use hzelmaim.Services.NetworkService.Attachment.{
  Attached, same_Attached, update_state-Attached, rename-Attached, create-Attached, delete-Attached,
  update_member_state-Attached, delete_member-Attached, log_success-Attached,
}

module _ (ip : IpNet) where
  open ip use {Ipv4Net, parse, network, prefix_len, contains}

  next_bridge_id-Attached : Keeps (Attached ip) NetworkRepo.next_bridge_id
  unfolding NetworkRepo.next_bridge_id
  next_bridge_id-Attached =
      Keeps-execute_returning _
        λ d a. same_Attached ip d (record d { bridge_id_seq = d.bridge_id_seq + 1 }) refl refl a

  pub create_network-Attached :
      (actor : AuthenticatedUser) (req : CreateNetworkRequest)
      → Keeps (Attached ip) (create_network ip actor req)
  unfolding create_network NetworkRepo.count_active NetworkRepo.count_for_user
      NetworkRepo.list_for_user
  create_network-Attached actor req =
      search
        (
          keeps_rules,
          next_bridge_id-Attached,
          create-Attached ip,
          update_state-Attached ip,
          log_success-Attached ip,
        )
        depth 60

  pub rename_network-Attached :
      (actor : AuthenticatedUser) (id : Uuid) (req : RenameNetworkRequest)
      → Keeps (Attached ip) (rename_network actor id req)
  unfolding rename_network
  rename_network-Attached actor id req =
      search (keeps_rules, get_network-Keeps, rename-Attached ip, get-Keeps) depth 12

  pub delete_network-Attached :
      (actor : AuthenticatedUser) (id : Uuid) → Keeps (Attached ip) (delete_network actor id)
  unfolding delete_network
  delete_network-Attached actor id =
      search
        (
          keeps_rules,
          get_network-Keeps,
          list_members-Keeps,
          update_state-Attached ip,
          delete-Attached ip,
          log_success-Attached ip,
        )
        depth 14

  pub remove_member-Attached :
      (actor : AuthenticatedUser) (id c : Uuid) → Keeps (Attached ip) (remove_member actor id c)
  unfolding remove_member
  remove_member-Attached actor id c =
      search
        (
          keeps_rules,
          get_network-Keeps,
          permission-Keeps,
          get_container-Keeps,
          list_members-Keeps,
          update_member_state-Attached ip,
          delete_member-Attached ip,
          log_success-Attached ip,
        )
        depth 40
