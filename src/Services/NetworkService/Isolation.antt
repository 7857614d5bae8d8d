-- ===== src/Services/NetworkService/Isolation.antt =====
-- Lemmas on the address blocks of the stored networks, one for each operation of the service.
use hzelmaim.Prelude.{
  ◌≤◌, ◌≡◌, refl, Bool, true, not, ◌==◌, Option, none, some, List, String, All, AllPairs, order_by,
  where_rows, update_rows, All-where_rows, All-snoc, All-update_rows, All-map_with,
  All-of_where_rows, All-of_order_by, AllPairs-snoc, AllPairs-where_rows, AllPairs-update_rows,
  if◌then◌else◌, Bool-cases, inl, inr, ==_iff, subst,
}
use hzelmaim.Api.{ok}
use hzelmaim.Models.User.{Uuid, AuthenticatedUser}
use hzelmaim.Models.IpNet.{IpNet, Laws}
use hzelmaim.Models.Network.{
  PrivateNetwork, CreateNetworkRequest, RenameNetworkRequest, Ipv4Addr, Text,
}
use hzelmaim.Models.NetworkState.{NetworkState}
use hzelmaim.World.{World, Db, Effect, ◌>>◌, pure, call}
use hzelmaim.World.After.{After, After-bind, After-checked}
use hzelmaim.World.Keeps.{Keeps, After_of_Keeps, Keeps-update, Keeps-checked, keeps_rules}
use hzelmaim.Db.NetworkRepo
use hzelmaim.Db.NetworkRepo.{newest_first}
use hzelmaim.Services.AuditService
use hzelmaim.Services.NetworkService.{create_network, rename_network, delete_network}
use hzelmaim.Services.Addressing.{validate_cidr, check_no_overlap}
use hzelmaim.Services.Addressing.Cidr.{IsPrivate, validate_cidr_iff}
use hzelmaim.Services.Addressing.Overlap.{DisjointFrom, check_no_overlap_iff}
use hzelmaim.Services.NetworkService.Creation.{storing, new_network, create_network_lem}
use hzelmaim.Services.NetworkService.Members.{get-Keeps, list_members-Keeps, get_network-Keeps}

module _ (ip : IpNet) where
  open ip use {Ipv4Net, parse, to_string, prefix_len, contains}

  -- A text that denotes a private block between /16 and /28.
  pub record PrivateBlock (cidr : String) : Type 0 where
    pub net : Ipv4Net
    pub parses : parse cidr ≡ some net
    pub at_least_16 : 16 ≤ prefix_len net
    pub at_most_28 : prefix_len net ≤ 28
    pub addresses : (a : Ipv4Addr) → contains net a ≡ true → IsPrivate a

  -- Two networks of one user share no address.
  abbrev pub Apart : PrivateNetwork → PrivateNetwork → Type 0
  Apart a b =
      a.owner_user_id ≡ b.owner_user_id
      → (n m : Ipv4Net) → parse a.cidr ≡ some n
      → parse b.cidr ≡ some m
      → (x : Ipv4Addr) → contains n x ≡ true
      → contains m x ≡ true
      → ⊥

  -- Every stored network is a private block between /16 and /28, and no two networks of one user
  -- share an address.
  pub record Isolated (d : Db) : Type 0 where
    pub blocks : All (λ n. PrivateBlock n.cidr) d.networks
    pub apart : AllPairs Apart d.networks

  pub rows_Isolated : (d e : Db) → e.networks ≡ d.networks → Isolated d → Isolated e
  rows_Isolated d e p q = record { blocks = rw p q.blocks; apart = rw p q.apart }

  -- An update that leaves the owners and the blocks alone.
  update-Isolated :
      (p : PrivateNetwork → Bool) (f : PrivateNetwork → PrivateNetwork) (d : Db)
      → ((n : PrivateNetwork) → (f n).cidr ≡ n.cidr)
      → ((n : PrivateNetwork) → (f n).owner_user_id ≡ n.owner_user_id)
      → Isolated d
      → Isolated (record d { networks = update_rows p f d.networks })
  update-Isolated p f d c o q = record {
    blocks = All-update_rows _ _ p f d.networks (λ n b. rw (cidr_kept n) b) q.blocks;
    apart =
        AllPairs-update_rows _ p f d.networks
          (λ x y a. rw (cidr_kept x, cidr_kept y, owner_kept x, owner_kept y) a) q.apart;
  }
    where
      cidr_kept : (n : PrivateNetwork) → (if p n then f n else n).cidr ≡ n.cidr
      cidr_kept n = elim (Bool-cases (p n)) [ inl t ↦ rw t (c n) | inr t ↦ rw t refl ]

      owner_kept : (n : PrivateNetwork) → (if p n then f n else n).owner_user_id ≡ n.owner_user_id
      owner_kept n = elim (Bool-cases (p n)) [ inl t ↦ rw t (o n) | inr t ↦ rw t refl ]

  update_state-Isolated :
      (id : Uuid) (s : NetworkState) → Keeps Isolated (NetworkRepo.update_state id s)
  unfolding NetworkRepo.update_state
  update_state-Isolated id s = Keeps-update _ λ d q.
      update-Isolated (λ n. n.id == id) (λ n. record n { state = s }) d (λ _. refl) (λ _. refl) q

  rename-Isolated : (id : Uuid) (name : Text) → Keeps Isolated (NetworkRepo.rename id name)
  unfolding NetworkRepo.rename
  rename-Isolated id name = Keeps-update _ λ d q.
      update-Isolated (λ n. n.id == id) (λ n. record n { name = name }) d (λ _. refl) (λ _. refl) q

  delete-Isolated : (id : Uuid) → Keeps Isolated (NetworkRepo.delete id)
  unfolding NetworkRepo.delete
  delete-Isolated id = Keeps-checked _ _ λ d _ q. record {
    blocks = All-where_rows _ (λ n. not (n.id == id)) d.networks q.blocks;
    apart = AllPairs-where_rows _ (λ n. not (n.id == id)) d.networks q.apart;
  }

  log_success-Isolated :
      (u c : Option Uuid) (action : String) → Keeps Isolated (AuditService.log_success u c action)
  log_success-Isolated =
      AuditService.log_success-Keeps Isolated
        (λ d l q. rows_Isolated d (record d { audit_logs = l }) refl q)

  pub rename_network-Isolated :
      (actor : AuthenticatedUser) (id : Uuid) (req : RenameNetworkRequest)
      → Keeps Isolated (rename_network actor id req)
  unfolding rename_network
  rename_network-Isolated actor id req =
      search (keeps_rules, get_network-Keeps, rename-Isolated, get-Keeps) depth 12

  pub delete_network-Isolated :
      (actor : AuthenticatedUser) (id : Uuid) → Keeps Isolated (delete_network actor id)
  unfolding delete_network
  delete_network-Isolated actor id =
      search
        (
          keeps_rules, get_network-Keeps, list_members-Keeps, update_state-Isolated,
          delete-Isolated, log_success-Isolated,
        )
        depth 14

  -- Storing one more row that fits the others.
  store-Isolated :
      (actor : AuthenticatedUser) (net : PrivateNetwork) (w : World)
      → PrivateBlock net.cidr
      → All (λ m. Apart m net) w.db.networks
      → Isolated w.db
      → After (storing actor net) w (λ _ w'. Isolated w'.db)
  unfolding NetworkRepo.create
  store-Isolated actor net w b a q = After-bind _ w _ _ (
      After-checked _ w _ _ q λ _.
        After_of_Keeps Isolated tail
          (record {
            blocks = All-snoc _ w.db.networks net q.blocks b;
            apart = AllPairs-snoc _ w.db.networks net q.apart a;
          })
          λ d h. h)
    where
      tail : Keeps Isolated (do
        call {A = Unit {0}} (Effect.create_bridge net.bridge_id) (λ _ _. tt)
        NetworkRepo.update_state net.id NetworkState.active
        AuditService.log_success (some actor.user_id) none "network.create"
        pure (record net { state = NetworkState.active }))
      tail = search (keeps_rules, update_state-Isolated, log_success-Isolated) depth 14

  module _ (laws : Laws ip) where
    parse_unique : (s : String) (n m : Ipv4Net) → parse s ≡ some n → parse s ≡ some m → n ≡ m
    parse_unique s n m p q = cc

    -- A block that passes the overlap check against the user's networks is apart from all of them.
    checked-Apart :
        (cidr : Ipv4Net) (net : PrivateNetwork) (rows : List PrivateNetwork)
        → net.cidr ≡ to_string cidr
        → check_no_overlap ip cidr
            (order_by newest_first (where_rows (λ n. n.owner_user_id == net.owner_user_id) rows))
          ≡ ok tt
        → All (λ m. Apart m net) rows
    checked-Apart cidr net rows same passed =
        All-map_with _ _ rows
          (λ row h owner n m pn pm x cn cm.
            h ((==_iff _ _).1 owner) n pn x
              (subst (λ (t : Ipv4Net). contains t x ≡ true) (denotes m pm) cm) cn)
          (All-of_where_rows (DisjointFrom ip laws cidr) _ rows
            (All-of_order_by _ newest_first _ ((check_no_overlap_iff ip laws cidr _).0.0 passed)))
      where
        denotes : (m : Ipv4Net) → parse net.cidr ≡ some m → m ≡ cidr
        denotes m pm = parse_unique net.cidr m cidr pm (rw same (laws.parse-to_string cidr))

    private_block :
        (s : String) (n : Ipv4Net) → validate_cidr ip s ≡ ok n → PrivateBlock (to_string n)
    private_block s n h =
        let (_, l, u, priv) = (validate_cidr_iff ip laws s n).0 h in
        record {
          net = n;
          parses = laws.parse-to_string n;
          at_least_16 = l;
          at_most_28 = u;
          addresses = priv;
        }

    pub create_network-Isolated :
        (actor : AuthenticatedUser) (req : CreateNetworkRequest)
        → Keeps Isolated (create_network ip actor req)
    create_network-Isolated actor req = record {
      at = λ w q.
          (create_network_lem ip actor req w _ (λ e w' s. rows_Isolated w.db w'.db s q)
            λ name cidr bridge_id id now w' _ valid _ _ passed s.
              store-Isolated actor (new_network actor name (to_string cidr) bridge_id id now) w'
                (private_block req.cidr cidr valid)
                (rw s (
                  checked-Apart cidr (new_network actor name (to_string cidr) bridge_id id now)
                    w.db.networks refl passed))
                (rows_Isolated w.db w'.db s q)).holds;
    }
