-- ===== src/Services/NetworkService/Creation.antt =====
-- How `create_network` comes to store a row: what it has checked by then.
use hzelmaim.Prelude.{
  ℕ, ◌≡◌, refl, false, ◌==◌, none, some, List, leb, where_rows, order_by, String,
}
use hzelmaim.Api.{ApiError, Result, ok, err}
use hzelmaim.Models.User.{Uuid, DateTime, AuthenticatedUser}
use hzelmaim.Models.IpNet.{IpNet}
use hzelmaim.Models.Network.{PrivateNetwork, CreateNetworkRequest, Text, vmbr}
use hzelmaim.Models.NetworkState.{NetworkState}
use hzelmaim.World.{World, Effect, M, ◌>>◌, pure, call}
use hzelmaim.World.After.{
  After, After-bind, After-lift, After-select, After-if, After-execute_returning, After-new_v4,
  After-utc_now,
}
use hzelmaim.Db.NetworkRepo
use hzelmaim.Db.NetworkRepo.{newest_first}
use hzelmaim.Services.AuditService
use hzelmaim.Services.NetworkService.{
  create_network, validate_name, max_networks_per_node, max_networks_per_user,
}
use hzelmaim.Services.Addressing.{validate_cidr, check_no_overlap}
use hzelmaim.Services.NetworkService.Quota.{live_count, live_count_of}

abbrev pub new_network : AuthenticatedUser → Text → String → ℕ → Uuid → DateTime → PrivateNetwork
new_network actor name cidr bridge_id id now = record {
  id = id;
  owner_user_id = actor.user_id;
  name = name;
  bridge_name = vmbr bridge_id;
  bridge_id = bridge_id;
  cidr = cidr;
  state = NetworkState.creating;
  created_at = now;
}

-- The last part of `create_network`.
abbrev pub storing : AuthenticatedUser → PrivateNetwork → M PrivateNetwork
storing actor net = do
  NetworkRepo.create net
  call {A = Unit {0}} (Effect.create_bridge net.bridge_id) (λ _ _. tt)
  NetworkRepo.update_state net.id NetworkState.active
  AuditService.log_success (some actor.user_id) none "network.create"
  pure (record net { state = NetworkState.active })

abbrev existing_of : Uuid → List PrivateNetwork → List PrivateNetwork
existing_of user nets = order_by newest_first (where_rows (λ n. n.owner_user_id == user) nets)

-- A request that is refused has left the networks alone; the others reach the last part with every
-- check passed and the networks unchanged.
pub create_network_lem :
    (ip : IpNet) (actor : AuthenticatedUser) (req : CreateNetworkRequest) (w : World)
    (Q : Result PrivateNetwork → World → Type 0)
    → ((e : ApiError) (w' : World) → w'.db.networks ≡ w.db.networks → Q (err e) w')
    → ((name : Text) (cidr : ip.Ipv4Net) (bridge_id : ℕ) (id : Uuid) (now : DateTime) (w' : World)
        → validate_name req.name ≡ ok name
        → validate_cidr ip req.cidr ≡ ok cidr
        → leb max_networks_per_node (live_count w.db.networks) ≡ false
        → leb max_networks_per_user (live_count_of actor.user_id w.db.networks) ≡ false
        → check_no_overlap ip cidr (existing_of actor.user_id w.db.networks) ≡ ok tt
        → w'.db.networks ≡ w.db.networks
        → After (storing actor (new_network actor name (ip.to_string cidr) bridge_id id now)) w' Q)
    → After (create_network ip actor req) w Q
unfolding create_network NetworkRepo.count_active NetworkRepo.count_for_user
    NetworkRepo.list_for_user NetworkRepo.next_bridge_id
create_network_lem ip actor req w Q refused reached = After-bind _ _ _ _ (
    After-lift _ _ _
      (λ name v. After-bind _ _ _ _ (
        After-lift _ _ _
          (λ cidr c. After-bind _ _ _ _ (
            After-select _ _ _ (refused _ _ refl) (
              After-if _ _ _ _ _
                (λ _. After-lift _ _ _ (λ _ p. absurd (cc)) (λ e _. refused e _ refl))
                (λ (n : leb max_networks_per_node (live_count w.db.networks) ≡ false).
                  After-bind _ _ _ _ (
                    After-select _ _ _ (refused _ _ refl) (
                      After-if _ _ _ _ _
                        (λ _. After-lift _ _ _ (λ _ p. absurd (cc)) (λ e _. refused e _ refl))
                        (λ (u : leb max_networks_per_user
                              (live_count_of actor.user_id w.db.networks)
                            ≡ false).
                          After-bind _ _ _ _ (
                            After-select _ _ _ (refused _ _ refl) (
                              After-bind _ _ _ _ (
                                After-lift _ _ _
                                  (λ t o. After-bind _ _ _ _ (
                                    After-execute_returning _ _ _ (refused _ _ refl) (
                                      After-bind _ _ _ _ (
                                        After-new_v4 _ _ (
                                          After-bind _ _ _ _ (
                                            After-utc_now _ _
                                              (reached name cidr _ _ _ _ v c n u o refl)))))))
                                  (λ e _. refused e _ refl)))))))))))
          (λ e _. refused e _ refl)))
      (λ e _. refused e _ refl))
