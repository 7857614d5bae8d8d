-- ===== src/Examples/Networks.antt =====
-- The theorems on networks at sample values, and runs of the service.
use hzelmaim.Prelude.{
  ℕ, ◌+◌, ◌≤◌, ◌<◌, ◌≡◌, refl, true, false, ◌↔◌, inr, List, [], ◌∷◌, arith, All, ◌⊎◌, none, some,
  map,
}
use hzelmaim.Api.{ok, err, bad_request}
use hzelmaim.Models.User.{AuthenticatedUser}
use hzelmaim.Models.Network.{PrivateNetwork, NetworkMembership, Ipv4Addr}
use hzelmaim.Models.NetworkState
use hzelmaim.World.{
  pure, lift, ◌>>=◌, attempt, select, execute, update, execute_returning, match_result, utc_now,
  new_v4, call,
}
use hzelmaim.Db.NetworkRepo
use hzelmaim.Db.ContainerRepo
use hzelmaim.Db.AuditRepo
use hzelmaim.Services.AuditService
use hzelmaim.Models.Container.{has}
use hzelmaim.Models.IpNet.{range_from, block}
use hzelmaim.Prelude.{order_by, insert_by}
use hzelmaim.Prelude.Text.{trim, trim_start, byte_len, is_whitespace}
use hzelmaim.Services.NetworkService.{
  create_network, add_member, delete_network, get_network, require_network_owner,
  require_container_permission, validate_name,
}
use hzelmaim.Services.Addressing.{
  overlaps, validate_cidr, check_no_overlap, allocate_ip, first_unused, slots,
}
use hzelmaim.Services.Addressing.Cidr.{IsPrivate, validate_cidr_iff}
use hzelmaim.Services.Addressing.Overlap.{DisjointFrom, check_no_overlap_iff}
use hzelmaim.Services.Addressing.Allocation.{
  is_used, allocate_ip_lowest, allocate_ip_exhausted, slot_lowest,
}
use hzelmaim.Services.NetworkService.Quota.{WithinQuota}
use hzelmaim.Services.NetworkService.Isolation.{Isolated}
use hzelmaim.Services.NetworkService.Requests.{
  NetworkRequest, serve, serve_all, serve_all-WithinQuota, serve_all-Isolated, serve_all-Attached,
  Wired,
}
use hzelmaim.Examples.{
  sample_ip, sample_laws, SampleNet, sample_world, sample_db, alice, bob, sample_contains,
  sample_network,
}

-- Alice makes a second network and attaches her container to it; Bob, who does not own it, fails to
-- delete it.
abbrev requests : List (AuthenticatedUser × NetworkRequest)
requests =
    (
      alice,
      NetworkRequest.create_network_request (record { name = 108 ∷ []; cidr = "192.168.2.0/28" }),
    )
    ∷ (alice, NetworkRequest.add_member_request 1004 (record { container_id = 20 }))
    ∷ (bob, NetworkRequest.delete_network_request 1004)
    ∷ (alice, NetworkRequest.delete_network_request 30)
    ∷ []

-- What is left is the new network, whose container has the third address of its block and slot 1.
left :
    (map (λ (n : PrivateNetwork). n.state) (serve_all sample_ip requests sample_world).db.networks
      ≡ NetworkState.active ∷ [])
    × (map
          (λ (m : NetworkMembership). m.private_ip)
          (serve_all sample_ip requests sample_world).db.memberships
        ≡ 3232236034 ∷ [])
unfolding serve_all serve create_network add_member delete_network get_network require_network_owner
    require_container_permission validate_name validate_cidr check_no_overlap overlaps allocate_ip
    first_unused NetworkRepo.count_active NetworkRepo.count_for_user NetworkRepo.list_for_user
    NetworkRepo.next_bridge_id NetworkRepo.create NetworkRepo.update_state NetworkRepo.get
    NetworkRepo.list_members NetworkRepo.used_ips NetworkRepo.used_net_indices
    NetworkRepo.insert_member NetworkRepo.update_member_state NetworkRepo.delete ContainerRepo.get
    ContainerRepo.get_permissions has AuditService.log_success AuditRepo.insert pure lift ◌>>=◌
    attempt select execute update execute_returning match_result utc_now new_v4 call order_by
    insert_by trim trim_start byte_len is_whitespace range_from
left = (refl, refl)

sample_apart : Isolated sample_ip sample_db
sample_apart = record {
  blocks = (
    record {
      net = SampleNet.home;
      parses = refl;
      at_least_16 = omega arith;
      at_most_28 = omega arith;
      addresses = λ a h.
          let (l, u) = (sample_laws.contains_iff SampleNet.home a).0 h in
          inr (inr (omega arith, omega arith));
    },
    tt,
  );
  apart = (tt, tt);
}

sample_within : WithinQuota sample_db
sample_within = record { distinct = (tt, tt); node = omega arith; user = λ u. ground arith }

serve_all-WithinQuota_example : WithinQuota (serve_all sample_ip requests sample_world).db
serve_all-WithinQuota_example = serve_all-WithinQuota sample_ip requests sample_world sample_within

serve_all-Isolated_example : Isolated sample_ip (serve_all sample_ip requests sample_world).db
serve_all-Isolated_example =
    serve_all-Isolated sample_ip sample_laws requests sample_world sample_apart

serve_all-Attached_example : Wired sample_ip (serve_all sample_ip requests sample_world).db
serve_all-Attached_example =
    serve_all-Attached sample_ip sample_laws requests sample_world
      (sample_apart, record { placed = tt; unique = tt })

validate_cidr_iff_example : (validate_cidr sample_ip "192.168.2.0/28" ≡ ok SampleNet.lab) ↔ (
    (some SampleNet.lab ≡ some SampleNet.lab)
    × (16 ≤ 28)
    × (28 ≤ 28)
    × ((a : Ipv4Addr) → sample_contains SampleNet.lab a ≡ true → IsPrivate a))
validate_cidr_iff_example = validate_cidr_iff sample_ip sample_laws "192.168.2.0/28" SampleNet.lab

check_no_overlap_iff_example :
    ((check_no_overlap sample_ip SampleNet.lab sample_db.networks ≡ ok tt)
      ↔ All (DisjointFrom sample_ip sample_laws SampleNet.lab) sample_db.networks)
    × ((check_no_overlap sample_ip SampleNet.lab sample_db.networks ≡ ok tt)
        ⊎ (check_no_overlap sample_ip SampleNet.lab sample_db.networks ≡ err bad_request))
check_no_overlap_iff_example =
    check_no_overlap_iff sample_ip sample_laws SampleNet.lab sample_db.networks

-- The addresses .2 and .3 of the block are taken.
abbrev taken : List Ipv4Addr
taken = 3232236034 ∷ 3232236035 ∷ []

picked : allocate_ip sample_ip SampleNet.lab taken ≡ ok 3232236036
unfolding allocate_ip first_unused range_from
picked = refl

allocate_ip_lowest_example :
    (sample_contains SampleNet.lab 3232236036 ≡ true)
    × (sample_network SampleNet.lab + 2 ≤ 3232236036)
    × (3232236036 + 1 < sample_network SampleNet.lab + block 28)
    × (is_used taken 3232236036 ≡ false)
    × ((b : Ipv4Addr)
        → sample_network SampleNet.lab + 2 ≤ b
        → b < 3232236036
        → is_used taken b ≡ true)
allocate_ip_lowest_example =
    allocate_ip_lowest sample_ip sample_laws SampleNet.lab taken 3232236036 (omega arith) picked

allocate_ip_exhausted_example : (allocate_ip sample_ip SampleNet.lab taken ≡ err bad_request) ↔ (
    (b : Ipv4Addr)
    → sample_network SampleNet.lab + 2 ≤ b
    → b + 1 < sample_network SampleNet.lab + block 28
    → is_used taken b ≡ true)
allocate_ip_exhausted_example =
    allocate_ip_exhausted sample_ip sample_laws SampleNet.lab taken (omega arith)

slot_lowest_example :
    ((i : ℕ)
      → first_unused (1 ∷ 3 ∷ []) slots ≡ some i
      → (1 ≤ i)
        × (i ≤ 15)
        × (is_used (1 ∷ 3 ∷ []) i ≡ false)
        × ((j : ℕ) → 1 ≤ j → j < i → is_used (1 ∷ 3 ∷ []) j ≡ true))
    × ((first_unused (1 ∷ 3 ∷ []) slots ≡ none)
        ↔ ((j : ℕ) → 1 ≤ j → j ≤ 15 → is_used (1 ∷ 3 ∷ []) j ≡ true))
slot_lowest_example = slot_lowest (1 ∷ 3 ∷ [])
