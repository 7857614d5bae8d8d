-- ===== src/Services/NetworkService/Attachment/Adding.antt =====
-- Lemmas on the place of the membership that `add_member` stores.
use hzelmaim.Prelude.{
  ℕ, ◌≤◌, ◌<◌, ◌≡◌, refl, sym, subst, ◌∙◌, true, false, not, ◌==◌, any, Option, some, List, All,
  arith, find_row, All-snoc, All-find_row, find_column_of_row, All-of_any, AllPairs-snoc,
  All-map_with,
}
use hzelmaim.Api.{ApiError, Result, ok, err, ok_or, internal}
use hzelmaim.Models.User.{Uuid, AuthenticatedUser}
use hzelmaim.Models.IpNet.{IpNet, Laws}
use hzelmaim.Models.Network.{PrivateNetwork, NetworkMembership, Ipv4Addr, AddMemberRequest}
use hzelmaim.Models.Container.{ContainerRecord}
use hzelmaim.Models.MembershipState.{MembershipState}
use hzelmaim.World.{World, Db, Effect, ◌>>=◌, ◌>>◌, pure, lift, attempt, match_result, call}
use hzelmaim.World.After.{
  After, After-bind, After-pure, After-lift, After-select, After-if, After-refused, After-lift_bind,
  After-checked, After-new_v4, After-utc_now,
}
use hzelmaim.World.Keeps.{After-read_bind, After_then_Keeps, keeps_rules}
use hzelmaim.Db.NetworkRepo
use hzelmaim.Db.NetworkRepo.{member_conflict, slot_in_range}
use hzelmaim.Services.AuditService
use hzelmaim.Services.Addressing.{allocate_ip}
use hzelmaim.Services.Addressing.Allocation.{allocate_ip_lowest}
use hzelmaim.Services.NetworkService.{get_network, is_active, hot_configure, add_member}
use hzelmaim.Services.NetworkService.Members.{
  list_members-Keeps, permission-Keeps, get_container-Keeps, used_ips-Keeps, used_net_indices-Keeps,
}
use hzelmaim.Services.NetworkService.Isolation.{Isolated, PrivateBlock}
use hzelmaim.Services.NetworkService.Attachment.{
  Placed, Attached, update_member_state-Attached, log_success-Attached,
}

is_some : {A : Type 0} {a : A} (o : Option A) (e : ApiError) → ok_or o e ≡ ok a → o ≡ some a
is_some o e h = ground arith

module _ (ip : IpNet) where
  open ip use {Ipv4Net, parse, network, prefix_len, contains}

  -- Storing a membership that is placed.
  insert_member_lem :
      (m : NetworkMembership) (w : World)
      → (slot_in_range m.net_index ≡ true → Placed ip w.db.networks m)
      → Attached ip w.db
      → After (NetworkRepo.insert_member m) w (λ _ w'. Attached ip w'.db)
  unfolding NetworkRepo.insert_member
  insert_member_lem m w placed a = After-checked _ w _ _ a λ accepted. (record {
    placed = All-snoc _ w.db.memberships m a.placed (placed (ground arith));
    unique = AllPairs-snoc _ w.db.memberships m a.unique (
        All-map_with _ _ w.db.memberships (λ y k. ground arith)
          (All-of_any (member_conflict m) w.db.memberships (ground arith)));
  })

  get_network_lem :
      (actor : AuthenticatedUser) (id : Uuid) (w : World)
      (Q : Result PrivateNetwork → World → Type 0)
      → ((e : ApiError) (w' : World) → w'.db ≡ w.db → Q (err e) w')
      → ((net : PrivateNetwork) (w' : World)
          → w'.db ≡ w.db
          → find_row (λ n. n.id == id) w.db.networks ≡ some net
          → Q (ok net) w')
      → After (get_network actor id) w Q
  unfolding get_network NetworkRepo.get
  get_network_lem actor id w Q failed found = After-bind _ w _ _ (
      After-select _ w _ (failed _ _ refl) (
        After-bind _ _ _ _ (
          After-lift _ _ _
            (λ net e. After-bind _ _ _ _ (
              After-lift _ _ _ (λ _ _. After-pure _ _ _ (found net _ refl (ground arith)))
                (λ x _. failed x _ refl)))
            (λ x _. failed x _ refl))))

  -- The address that is allocated in the block of a stored network.
  Placed-by_allocation :
      (laws : Laws ip) (m : NetworkMembership) (nets : List PrivateNetwork) (row : PrivateNetwork)
      (net : Ipv4Net) (used : List Ipv4Addr)
      → All (λ n. PrivateBlock ip n.cidr) nets
      → find_row (λ n. n.id == m.network_id) nets ≡ some row
      → parse row.cidr ≡ some net
      → allocate_ip ip net used ≡ ok m.private_ip
      → slot_in_range m.net_index ≡ true
      → Placed ip nets m
  Placed-by_allocation laws m nets row net used blocks found parses allocated slot =
      let b : PrivateBlock ip row.cidr =
        All-find_row (λ n. PrivateBlock ip n.cidr) (λ n. n.id == m.network_id) nets row blocks
          found in
      let same : b.net ≡ net = cc (b.parses, parses) in
      let short : prefix_len net ≤ 28 =
        subst (λ (n : Ipv4Net). prefix_len n ≤ 28) same b.at_most_28 in
      let small : prefix_len net < 31 = omega (arith, short) in
      let (inside, above, below, _, _) =
        allocate_ip_lowest ip laws net used m.private_ip small allocated in
      record {
        slot = slot;
        cidr = row.cidr;
        stored = find_column_of_row (λ n. n.cidr) _ nets row found;
        net = net;
        parses = parses;
        inside = inside;
        above = above;
        below = below;
      }

  Placed-in_same :
      {m : NetworkMembership} (d e : Db) → d ≡ e → Placed ip e.networks m → Placed ip d.networks m
  Placed-in_same {m} d e p h = subst (λ (t : Db). Placed ip t.networks m) (sym p) h

  -- The last part of `add_member`.
  store_member :
      (actor : AuthenticatedUser) (container : ContainerRecord) (net : PrivateNetwork) (prefix : ℕ)
      (m : NetworkMembership) (w : World)
      → (slot_in_range m.net_index ≡ true → Placed ip w.db.networks m)
      → Attached ip w.db
      → After
          (do
            NetworkRepo.insert_member m
            attached ← attempt (
                call {A = Unit {0}}
                  (Effect.attach_container_nic container.proxmox_ctid m.net_index net.bridge_name
                    m.private_ip prefix)
                  (λ _ _. tt))
            match_result attached
                (λ _. do
                  hot_configure container.proxmox_ctid
                  NetworkRepo.update_member_state m.id MembershipState.active
                  AuditService.log_success
                      (some actor.user_id)
                      (some m.container_id)
                      "network.member.add"
                  pure (record m { state = MembershipState.active }))
                (λ e. do
                  _ ← attempt (NetworkRepo.update_member_state m.id MembershipState.failed)
                  lift (err e)))
          w
          (λ _ w'. Attached ip w'.db)
  unfolding hot_configure
  store_member actor container net prefix m w placed a =
      After_then_Keeps (Attached ip) (insert_member_lem m w placed a) (λ _.
        search (keeps_rules, update_member_state-Attached ip, log_success-Attached ip) depth 20)

  -- What `add_member` stores is placed in the network that it has found.
  pub add_member-Attached :
      (laws : Laws ip) (actor : AuthenticatedUser) (id : Uuid) (req : AddMemberRequest) (w : World)
      → Isolated ip w.db
      → Attached ip w.db
      → After (add_member ip actor id req) w (λ _ w'. Attached ip w'.db)
  unfolding add_member hot_configure
  add_member-Attached laws actor id req w i a = After-bind _ w _ _ (
      get_network_lem actor id w _ (λ _ w1 s1. back w1 s1)
        λ net w1 s1 found.
          After-if _ w1 _ _ _ (λ _. After-refused _ w1 _ (back w1 s1))
            λ (_ : not (is_active net.state) ≡ false).
              After-read_bind (permission-Keeps actor req.container_id _)
                (λ _ w2 s2. back w2 (s2 ∙ s1))
                λ _ w2 s2.
                  After-read_bind (get_container-Keeps req.container_id)
                    (λ _ w3 s3. back w3 (s3 ∙ s2 ∙ s1))
                    λ _ w3 s3.
                      After-lift_bind (λ _. back w3 (s3 ∙ s2 ∙ s1))
                        λ container _.
                          After-read_bind (list_members-Keeps id)
                            (λ _ w4 s4. back w4 (s4 ∙ s3 ∙ s2 ∙ s1))
                            λ members w4 s4.
                              After-if _ w4 _ _ _
                                (λ _. After-refused _ w4 _ (back w4 (s4 ∙ s3 ∙ s2 ∙ s1)))
                                λ (_ : any (λ m. m.container_id == req.container_id) members
                                    ≡ false).
                                  After-read_bind (used_ips-Keeps id)
                                    (λ _ w5 s5. back w5 (s5 ∙ s4 ∙ s3 ∙ s2 ∙ s1))
                                    λ used w5 s5.
                                      let s : w5.db ≡ w.db = s5 ∙ s4 ∙ s3 ∙ s2 ∙ s1 in
                                      After-lift_bind (λ _. back w5 s)
                                        λ cidr (parses : ok_or (parse net.cidr) internal ≡ ok cidr).
                                          After-lift_bind (λ _. back w5 s)
                                            λ address allocated.
                                              After-read_bind
                                                (used_net_indices-Keeps req.container_id)
                                                (λ _ w6 s6. back w6 (s6 ∙ s))
                                                λ _ w6 s6.
                                                  After-lift_bind (λ _. back w6 (s6 ∙ s))
                                                    λ slot _. After-bind _ w6 _ _ (
                                                      After-new_v4 w6 _ (
                                                        After-bind _ _ _ _ (
                                                          After-utc_now _ _ (
                                                            store_member actor container net
                                                            (prefix_len cidr) _ _
                                                            (λ free.
                                                            Placed-in_same w6.db w.db (s6 ∙ s) (
                                                            Placed-by_allocation laws _
                                                            w.db.networks net cidr used i.blocks
                                                            found (is_some _ _ parses) allocated
                                                            free))
                                                            (back w6 (s6 ∙ s)))))))
    where
      back : (v : World) → v.db ≡ w.db → Attached ip v.db
      back v s = subst (Attached ip) (sym s) a
