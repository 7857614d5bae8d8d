-- ===== src/Services/NetworkService/Quota/Requests.antt =====
-- Lemmas on the limits of live networks, one for each operation of the service.
use hzelmaim.Prelude.{
  Bool, ◌||◌, ◌<◌, ◌≡◌, refl, true, false, ◌==◌, any, Option, none, some, [], ◌∷◌, ◌++◌, String,
  arith, leb, All, All-of_any, All-map_with, All-update_rows, All-of_holds, All-snoc,
}
use hzelmaim.Models.User.{Uuid, AuthenticatedUser}
use hzelmaim.Models.IpNet.{IpNet}
use hzelmaim.Models.Network.{PrivateNetwork, CreateNetworkRequest, RenameNetworkRequest, Text}
use hzelmaim.Models.NetworkState.{NetworkState}
use hzelmaim.World.{World, Db, Effect, ◌>>◌, pure, call}
use hzelmaim.World.After.{After, After-bind, After-checked}
use hzelmaim.World.Keeps.{Keeps, After_of_Keeps, Keeps-update, Keeps-checked, keeps_rules}
use hzelmaim.Db.NetworkRepo
use hzelmaim.Db.NetworkRepo.{network_conflict, is_live}
use hzelmaim.Services.AuditService
use hzelmaim.Services.NetworkService.{
  create_network, rename_network, delete_network, get_network, max_networks_per_node,
  max_networks_per_user,
}
use hzelmaim.Services.NetworkService.Quota.{
  WithinQuota, live_count, live_count_of, same_networks, update_state_kept, rename_kept,
  delete_kept, create_kept,
}
use hzelmaim.Services.NetworkService.Creation.{storing, new_network, create_network_lem}

get-Quota : (id : Uuid) → Keeps WithinQuota (NetworkRepo.get id)
unfolding NetworkRepo.get
get-Quota id = search keeps_rules

rename-Quota : (id : Uuid) (name : Text) → Keeps WithinQuota (NetworkRepo.rename id name)
unfolding NetworkRepo.rename
rename-Quota id name = Keeps-update _ (rename_kept id name)

delete-Quota : (id : Uuid) → Keeps WithinQuota (NetworkRepo.delete id)
unfolding NetworkRepo.delete
delete-Quota id = Keeps-checked _ _ λ d p q. delete_kept id d q

-- The state `deleting` frees a place.
deleting-Quota : (id : Uuid) → Keeps WithinQuota (NetworkRepo.update_state id NetworkState.deleting)
unfolding NetworkRepo.update_state
deleting-Quota id = Keeps-update _ λ d q.
    update_state_kept id NetworkState.deleting d (All-of_holds _ d.networks (λ n e l. absurd (cc)))
      q

list_members-Quota : (id : Uuid) → Keeps WithinQuota (NetworkRepo.list_members id)
unfolding NetworkRepo.list_members
list_members-Quota id = search keeps_rules

log_success-Quota :
    (u c : Option Uuid) (action : String) → Keeps WithinQuota (AuditService.log_success u c action)
log_success-Quota =
    AuditService.log_success-Keeps WithinQuota
      (λ d l q. same_networks d (record d { audit_logs = l }) refl q)

get_network-Quota :
    (actor : AuthenticatedUser) (id : Uuid) → Keeps WithinQuota (get_network actor id)
unfolding get_network
get_network-Quota actor id = search (keeps_rules, get-Quota)

pub rename_network-Quota :
    (actor : AuthenticatedUser) (id : Uuid) (req : RenameNetworkRequest)
    → Keeps WithinQuota (rename_network actor id req)
unfolding rename_network
rename_network-Quota actor id req =
    search (keeps_rules, get_network-Quota, rename-Quota, get-Quota) depth 12

pub delete_network-Quota :
    (actor : AuthenticatedUser) (id : Uuid) → Keeps WithinQuota (delete_network actor id)
unfolding delete_network
delete_network-Quota actor id =
    search
      (
        keeps_rules, get_network-Quota, list_members-Quota, deleting-Quota, delete-Quota,
        log_success-Quota,
      )
      depth 14

-- The state `active` on rows that are live already.
abbrev Made : Uuid → Db → Type 0
Made id d = WithinQuota d × All (λ n. (n.id == id) ≡ true → is_live n.state ≡ true) d.networks

activate-Made : (id : Uuid) → Keeps (Made id) (NetworkRepo.update_state id NetworkState.active)
unfolding NetworkRepo.update_state
activate-Made id = Keeps-update _ λ d q. (
  update_state_kept id NetworkState.active d (All-map_with _ _ d.networks (λ n k e l. k e) q.1) q.0,
  All-update_rows _ _ (λ n. n.id == id) (λ n. record n { state = NetworkState.active }) d.networks
      (λ n k. ground arith) q.1,
)

log_success-Made :
    (id : Uuid) (u c : Option Uuid) (action : String)
    → Keeps (Made id) (AuditService.log_success u c action)
log_success-Made id =
    AuditService.log_success-Keeps (Made id)
      (λ d l q. (same_networks d (record d { audit_logs = l }) refl q.0, q.1))

create-Made :
    (net : PrivateNetwork) (d : Db)
    → any (network_conflict net) d.networks ≡ false
    → live_count d.networks < max_networks_per_node
    → live_count_of net.owner_user_id d.networks < max_networks_per_user
    → is_live net.state ≡ true
    → WithinQuota d
    → Made net.id (record d { networks = d.networks ++ net ∷ [] })
create-Made net d c n u l q = (
  create_kept net d c n u q,
  All-snoc _ d.networks net
      (All-map_with _ _ d.networks (λ m k e. ground arith)
        (All-of_any (network_conflict net) d.networks c))
      (λ e. l),
)

or_left : (a b : Bool) → (a || b) ≡ false → a ≡ false
or_left a b h = ground arith

-- Storing a network while there is room, and making it active.
store_network :
    (net : PrivateNetwork) (actor : AuthenticatedUser) (w : World)
    → leb max_networks_per_node (live_count w.db.networks) ≡ false
    → leb max_networks_per_user (live_count_of net.owner_user_id w.db.networks) ≡ false
    → is_live net.state ≡ true
    → WithinQuota w.db
    → After (storing actor net) w (λ _ w'. WithinQuota w'.db)
unfolding NetworkRepo.create
store_network net actor w n u l q = After-bind _ w _ _ (
    After-checked _ w _ _ q λ c.
      After_of_Keeps (Made net.id) tail
        (create-Made net w.db (or_left _ _ c) (ground arith) (ground arith) l q) λ d h. h.0)
  where
    tail : Keeps (Made net.id) (do
      call {A = Unit {0}} (Effect.create_bridge net.bridge_id) (λ _ _. tt)
      NetworkRepo.update_state net.id NetworkState.active
      AuditService.log_success (some actor.user_id) none "network.create"
      pure (record net { state = NetworkState.active }))
    tail = search (keeps_rules, activate-Made, log_success-Made) depth 14

pub create_network-Quota :
    (ip : IpNet) (actor : AuthenticatedUser) (req : CreateNetworkRequest)
    → Keeps WithinQuota (create_network ip actor req)
create_network-Quota ip actor req = record {
  at = λ w q.
      (create_network_lem ip actor req w _ (λ e w' s. same_networks w.db w'.db s q)
        λ name cidr bridge_id id now w' _ _ n u _ s.
          store_network (new_network actor name (ip.to_string cidr) bridge_id id now) actor w'
            (rw s n) (rw s u) refl (same_networks w.db w'.db s q)).holds;
}
