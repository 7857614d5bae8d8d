-- ===== src/Services/NetworkService/Requests.antt =====
-- Every operation of the service as one request, and the invariants over any list of them.
use hzelmaim.Prelude.{refl, List, [], ◌∷◌}
use hzelmaim.Models.User.{Uuid, AuthenticatedUser}
use hzelmaim.Models.IpNet.{IpNet, Laws}
use hzelmaim.Models.Network.{CreateNetworkRequest, RenameNetworkRequest, AddMemberRequest}
use hzelmaim.World.{World, Db, M}
use hzelmaim.Services.NetworkService.{
  list_networks, get_network, create_network, rename_network, delete_network, list_members,
  list_for_container, add_member, remove_member,
}
use hzelmaim.Services.NetworkService.Members.{
  list_networks-Keeps, get_network-Keeps, members_of_network-Keeps, list_for_container-Keeps,
  add_member-Keeps, remove_member-Keeps,
}
use hzelmaim.Services.NetworkService.Quota.{WithinQuota}
use hzelmaim.Services.NetworkService.Quota.{same_networks}
use hzelmaim.Services.NetworkService.Quota.Requests.{
  create_network-Quota, rename_network-Quota, delete_network-Quota,
}
use hzelmaim.Services.NetworkService.Attachment.{Attached}
use hzelmaim.Services.NetworkService.Attachment.Adding.{add_member-Attached}
use hzelmaim.Services.NetworkService.Attachment.Requests.{
  create_network-Attached, rename_network-Attached, delete_network-Attached, remove_member-Attached,
}
use hzelmaim.Services.NetworkService.Isolation.{
  Isolated, create_network-Isolated, rename_network-Isolated, delete_network-Isolated,
  rows_Isolated,
}

pub data NetworkRequest : Type 0 where
  list_networks_request : NetworkRequest
  get_network_request : Uuid → NetworkRequest
  create_network_request : CreateNetworkRequest → NetworkRequest
  rename_network_request : Uuid → RenameNetworkRequest → NetworkRequest
  delete_network_request : Uuid → NetworkRequest
  list_members_request : Uuid → NetworkRequest
  list_for_container_request : Uuid → NetworkRequest
  add_member_request : Uuid → AddMemberRequest → NetworkRequest
  remove_member_request : Uuid → Uuid → NetworkRequest

-- The world after a request, whatever its answer.
abbrev after : {A : Type 0} → M A → World → World
after m w = (m w).1

unfoldable pub serve : IpNet → AuthenticatedUser → NetworkRequest → World → World
serve ip actor list_networks_request = after (list_networks actor)
serve ip actor (get_network_request id) = after (get_network actor id)
serve ip actor (create_network_request req) = after (create_network ip actor req)
serve ip actor (rename_network_request id req) = after (rename_network actor id req)
serve ip actor (delete_network_request id) = after (delete_network actor id)
serve ip actor (list_members_request id) = after (list_members actor id)
serve ip actor (list_for_container_request c) = after (list_for_container actor c)
serve ip actor (add_member_request id req) = after (add_member ip actor id req)
serve ip actor (remove_member_request id c) = after (remove_member actor id c)

-- Any users' requests, one after another.
unfoldable pub serve_all : IpNet → List (AuthenticatedUser × NetworkRequest) → World → World
serve_all ip [] w = w
serve_all ip ((actor, req) ∷ reqs) w = serve_all ip reqs (serve ip actor req w)

-- What each request keeps, all of them keep.
serve_all-keeps :
    (ip : IpNet) (P : Db → Type 0)
    → ((actor : AuthenticatedUser) (req : NetworkRequest) (w : World)
        → P w.db
        → P (serve ip actor req w).db)
    → (reqs : List (AuthenticatedUser × NetworkRequest)) (w : World) → P w.db
    → P (serve_all ip reqs w).db
unfolding serve_all
serve_all-keeps ip P k [] w h = h
serve_all-keeps ip P k ((actor, req) ∷ reqs) w h =
    serve_all-keeps ip P k reqs (serve ip actor req w) (k actor req w h)

serve-quota :
    (ip : IpNet) (actor : AuthenticatedUser) (req : NetworkRequest) (w : World)
    → WithinQuota w.db
    → WithinQuota (serve ip actor req w).db
unfolding serve
serve-quota ip actor list_networks_request = (list_networks-Keeps actor).at
serve-quota ip actor (get_network_request id) = (get_network-Keeps actor id).at
serve-quota ip actor (create_network_request req) = (create_network-Quota ip actor req).at
serve-quota ip actor (rename_network_request id req) = (rename_network-Quota actor id req).at
serve-quota ip actor (delete_network_request id) = (delete_network-Quota actor id).at
serve-quota ip actor (list_members_request id) = (members_of_network-Keeps actor id).at
serve-quota ip actor (list_for_container_request c) = (list_for_container-Keeps actor c).at
serve-quota ip actor (add_member_request id req) =
    (add_member-Keeps (λ d l q. same_networks d _ refl q) (λ d l q. same_networks d _ refl q) ip
      actor id req).at
serve-quota ip actor (remove_member_request id c) =
    (remove_member-Keeps (λ d l q. same_networks d _ refl q) (λ d l q. same_networks d _ refl q)
      actor id c).at

serve-Isolated :
    (ip : IpNet) (laws : Laws ip) (actor : AuthenticatedUser) (req : NetworkRequest) (w : World)
    → Isolated ip w.db
    → Isolated ip (serve ip actor req w).db
unfolding serve
serve-Isolated ip laws actor list_networks_request = (list_networks-Keeps actor).at
serve-Isolated ip laws actor (get_network_request id) = (get_network-Keeps actor id).at
serve-Isolated ip laws actor (create_network_request req) =
    (create_network-Isolated ip laws actor req).at
serve-Isolated ip laws actor (rename_network_request id req) =
    (rename_network-Isolated ip actor id req).at
serve-Isolated ip laws actor (delete_network_request id) = (delete_network-Isolated ip actor id).at
serve-Isolated ip laws actor (list_members_request id) = (members_of_network-Keeps actor id).at
serve-Isolated ip laws actor (list_for_container_request c) = (list_for_container-Keeps actor c).at
serve-Isolated ip laws actor (add_member_request id req) =
    (add_member-Keeps (λ d l q. rows_Isolated ip d _ refl q) (λ d l q. rows_Isolated ip d _ refl q)
      ip actor id req).at
serve-Isolated ip laws actor (remove_member_request id c) =
    (remove_member-Keeps (λ d l q. rows_Isolated ip d _ refl q)
      (λ d l q. rows_Isolated ip d _ refl q) actor id c).at

-- Whatever requests the users make, and whichever of their database, Proxmox and SSH calls fail:
-- if at most 100 networks were creating or active, at most 5 of them of one user, and no two
-- networks shared an id or a bridge, then the same holds after every request.
pub serve_all-WithinQuota :
    (ip : IpNet) (reqs : List (AuthenticatedUser × NetworkRequest)) (w : World)
    → WithinQuota w.db
    → WithinQuota (serve_all ip reqs w).db
serve_all-WithinQuota ip = serve_all-keeps ip WithinQuota (serve-quota ip)

-- Whatever requests the users make, and whichever of their database, Proxmox and SSH calls fail:
-- if every stored network is a private block between /16 and /28 and no two networks of one
-- user share an address, then the same holds after every request.
pub serve_all-Isolated :
    (ip : IpNet) (laws : Laws ip) (reqs : List (AuthenticatedUser × NetworkRequest)) (w : World)
    → Isolated ip w.db
    → Isolated ip (serve_all ip reqs w).db
serve_all-Isolated ip laws = serve_all-keeps ip (Isolated ip) (serve-Isolated ip laws)

-- Both the blocks and the memberships are in order.
abbrev pub Wired : IpNet → Db → Type 0
Wired ip d = Isolated ip d × Attached ip d

serve-Attached :
    (ip : IpNet) (laws : Laws ip) (actor : AuthenticatedUser) (req : NetworkRequest) (w : World)
    → Wired ip w.db
    → Wired ip (serve ip actor req w).db
unfolding serve
serve-Attached ip laws actor list_networks_request w h =
    (list_networks-Keeps {P = Wired ip} actor).at w h
serve-Attached ip laws actor (get_network_request id) w h =
    (get_network-Keeps {P = Wired ip} actor id).at w h
serve-Attached ip laws actor (create_network_request req) w h = (
  (create_network-Isolated ip laws actor req).at w h.0,
  (create_network-Attached ip actor req).at w h.1,
)
serve-Attached ip laws actor (rename_network_request id req) w h = (
  (rename_network-Isolated ip actor id req).at w h.0,
  (rename_network-Attached ip actor id req).at w h.1,
)
serve-Attached ip laws actor (delete_network_request id) w h =
    ((delete_network-Isolated ip actor id).at w h.0, (delete_network-Attached ip actor id).at w h.1)
serve-Attached ip laws actor (list_members_request id) w h =
    (members_of_network-Keeps {P = Wired ip} actor id).at w h
serve-Attached ip laws actor (list_for_container_request c) w h =
    (list_for_container-Keeps {P = Wired ip} actor c).at w h
serve-Attached ip laws actor (add_member_request id req) w h = (
  serve-Isolated ip laws actor (add_member_request id req) w h.0,
  (add_member-Attached ip laws actor id req w h.0 h.1).holds,
)
serve-Attached ip laws actor (remove_member_request id c) w h = (
  serve-Isolated ip laws actor (remove_member_request id c) w h.0,
  (remove_member-Attached ip actor id c).at w h.1,
)

-- Whatever requests the users make, and whichever of their database, Proxmox and SSH calls fail:
-- if the stored networks are private blocks between /16 and /28 of which no two of one user share
-- an address, and every membership has a slot from 1 to 15 and an address inside the block of a
-- stored network (not one of its first two nor its last), and no two memberships share an id, an
-- address or a container in one network, or a slot of one container, then all of this holds after
-- every request.
pub serve_all-Attached :
    (ip : IpNet) (laws : Laws ip) (reqs : List (AuthenticatedUser × NetworkRequest)) (w : World)
    → Wired ip w.db
    → Wired ip (serve_all ip reqs w).db
serve_all-Attached ip laws = serve_all-keeps ip (Wired ip) (serve-Attached ip laws)
