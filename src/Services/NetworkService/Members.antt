-- ===== src/Services/NetworkService/Members.antt =====
-- What the operations on memberships leave alone.
use hzelmaim.Prelude.{ℕ, Option, List, String}
use hzelmaim.Models.User.{Uuid, AuthenticatedUser}
use hzelmaim.Models.Audit.{AuditLogRecord}
use hzelmaim.Models.IpNet.{IpNet}
use hzelmaim.Models.MembershipState.{MembershipState}
use hzelmaim.Models.Network.{NetworkMembership, AddMemberRequest}
use hzelmaim.World.{Db}
use hzelmaim.World.Keeps.{Keeps, Keeps-update, Keeps-checked, keeps_rules}
use hzelmaim.Db.NetworkRepo
use hzelmaim.Db.ContainerRepo
use hzelmaim.Services.AuditService
use hzelmaim.Services.NetworkService.{
  get_network, require_container_permission, list_networks, list_members, list_for_container,
  add_member, remove_member,
}

module _ {P : Db → Type 0} where
  pub get-Keeps : (id : Uuid) → Keeps P (NetworkRepo.get id)
  unfolding NetworkRepo.get
  get-Keeps id = search keeps_rules

  pub list_members-Keeps : (id : Uuid) → Keeps P (NetworkRepo.list_members id)
  unfolding NetworkRepo.list_members
  list_members-Keeps id = search keeps_rules

  pub get_network-Keeps : (actor : AuthenticatedUser) (id : Uuid) → Keeps P (get_network actor id)
  unfolding get_network
  get_network-Keeps actor id = search (keeps_rules, get-Keeps)

  get_permissions-Keeps : (c u : Uuid) → Keeps P (ContainerRepo.get_permissions c u)
  unfolding ContainerRepo.get_permissions
  get_permissions-Keeps c u = search keeps_rules

  pub get_container-Keeps : (c : Uuid) → Keeps P (ContainerRepo.get c)
  unfolding ContainerRepo.get
  get_container-Keeps c = search keeps_rules

  pub used_ips-Keeps : (id : Uuid) → Keeps P (NetworkRepo.used_ips id)
  unfolding NetworkRepo.used_ips
  used_ips-Keeps id = search keeps_rules

  pub used_net_indices-Keeps : (id : Uuid) → Keeps P (NetworkRepo.used_net_indices id)
  unfolding NetworkRepo.used_net_indices
  used_net_indices-Keeps id = search keeps_rules

  pub permission-Keeps :
      (actor : AuthenticatedUser) (c : Uuid) (flag : ℕ)
      → Keeps P (require_container_permission actor c flag)
  unfolding require_container_permission
  permission-Keeps actor c flag = search (keeps_rules, get_permissions-Keeps) depth 10

  -- Reading changes nothing.
  pub list_networks-Keeps : (actor : AuthenticatedUser) → Keeps P (list_networks actor)
  unfolding list_networks NetworkRepo.list_for_user
  list_networks-Keeps actor = search keeps_rules

  pub members_of_network-Keeps :
      (actor : AuthenticatedUser) (id : Uuid) → Keeps P (list_members actor id)
  unfolding list_members
  members_of_network-Keeps actor id =
      search (keeps_rules, get_network-Keeps, list_members-Keeps) depth 10

  pub list_for_container-Keeps :
      (actor : AuthenticatedUser) (c : Uuid) → Keeps P (list_for_container actor c)
  unfolding list_for_container NetworkRepo.list_for_container
  list_for_container-Keeps actor c = search (keeps_rules, permission-Keeps) depth 10

-- Attaching and detaching a container changes memberships and the audit log only.
module _ {P : Db → Type 0}
    (members : (d : Db) (l : List NetworkMembership) → P d → P (record d { memberships = l }))
    (audit : (d : Db) (l : List AuditLogRecord) → P d → P (record d { audit_logs = l })) where
  insert_member-Keeps : (m : NetworkMembership) → Keeps P (NetworkRepo.insert_member m)
  unfolding NetworkRepo.insert_member
  insert_member-Keeps m = Keeps-checked _ _ λ d _ h. members d _ h

  update_member_state-Keeps :
      (id : Uuid) (s : MembershipState) → Keeps P (NetworkRepo.update_member_state id s)
  unfolding NetworkRepo.update_member_state
  update_member_state-Keeps id s = Keeps-update _ λ d h. members d _ h

  delete_member-Keeps : (n c : Uuid) → Keeps P (NetworkRepo.delete_member n c)
  unfolding NetworkRepo.delete_member
  delete_member-Keeps n c = Keeps-update _ λ d h. members d _ h

  log-Keeps : (u c : Option Uuid) (action : String) → Keeps P (AuditService.log_success u c action)
  log-Keeps = AuditService.log_success-Keeps P audit

  pub add_member-Keeps :
      (ip : IpNet) (actor : AuthenticatedUser) (id : Uuid) (req : AddMemberRequest)
      → Keeps P (add_member ip actor id req)
  unfolding add_member
  add_member-Keeps ip actor id req =
      search
        (
          keeps_rules, get_network-Keeps, permission-Keeps, get_container-Keeps, list_members-Keeps,
          used_ips-Keeps, used_net_indices-Keeps, insert_member-Keeps, update_member_state-Keeps,
          log-Keeps,
        )
        depth 60

  pub remove_member-Keeps :
      (actor : AuthenticatedUser) (id c : Uuid) → Keeps P (remove_member actor id c)
  unfolding remove_member
  remove_member-Keeps actor id c =
      search
        (
          keeps_rules, get_network-Keeps, permission-Keeps, get_container-Keeps, list_members-Keeps,
          update_member_state-Keeps, delete_member-Keeps, log-Keeps,
        )
        depth 40
