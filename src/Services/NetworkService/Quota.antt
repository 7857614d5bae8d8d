-- ===== src/Services/NetworkService/Quota.antt =====
-- The limits on live networks, and the statements that keep them.
pub mod Requests
use hzelmaim.Prelude.{
  ℕ, ◌+◌, ◌≤◌, ◌<◌, ◌≡◌, true, false, not, ◌==◌, ◌&&◌, any, List, [], ◌∷◌, ◌++◌, arith, All,
  AllPairs, count_rows, where_rows, update_rows, count_rows-update_rows, count_rows-where_rows,
  count_rows-snoc, AllPairs-snoc, AllPairs-where_rows, AllPairs-update_rows, All-of_any,
  All-map_with, All-of_holds,
}
use hzelmaim.Models.User.{Uuid}
use hzelmaim.Models.Network.{PrivateNetwork, Text}
use hzelmaim.Models.NetworkState.{NetworkState}
use hzelmaim.World.{Db}
use hzelmaim.Db.NetworkRepo.{network_conflict, is_live}
use hzelmaim.Services.NetworkService.{max_networks_per_node, max_networks_per_user}

abbrev pub live_count : List PrivateNetwork → ℕ
live_count = count_rows (λ n. is_live n.state)

abbrev pub live_count_of : Uuid → List PrivateNetwork → ℕ
live_count_of user = count_rows (λ n. n.owner_user_id == user && is_live n.state)

-- At most 100 networks are live (creating or active), at most 5 of them one user's, and no two
-- networks share an id or a bridge.
pub record WithinQuota (d : Db) : Type 0 where
  pub distinct : AllPairs (λ a b. network_conflict a b ≡ false) d.networks
  pub node : live_count d.networks ≤ max_networks_per_node
  pub user : (u : Uuid) → live_count_of u d.networks ≤ max_networks_per_user

-- Only the networks matter.
pub same_networks : (d e : Db) → e.networks ≡ d.networks → WithinQuota d → WithinQuota e
same_networks d e p q = record {
  distinct = rw p q.distinct;
  node = rw p q.node;
  user = λ u. rw p (q.user u);
}

pub update_state_kept :
    (id : Uuid) (s : NetworkState) (d : Db)
    → All (λ n. (n.id == id) ≡ true → is_live s ≡ true → is_live n.state ≡ true) d.networks
    → WithinQuota d
    → WithinQuota (record d {
      networks = update_rows (λ n. n.id == id) (λ n. record n { state = s }) d.networks;
    })
update_state_kept id s d h q = record {
  distinct =
      AllPairs-update_rows _ (λ n. n.id == id) (λ n. record n { state = s }) d.networks
        (λ x y r. ground arith) q.distinct;
  node = omega (
    arith,
    q.node,
    count_rows-update_rows (λ n. is_live n.state) (λ n. n.id == id) (λ n. record n { state = s })
        d.networks h,
  );
  user = λ u. omega (
    arith,
    q.user u,
    count_rows-update_rows (λ n. n.owner_user_id == u && is_live n.state) (λ n. n.id == id)
        (λ n. record n { state = s }) d.networks
        (All-map_with _ _ d.networks (λ n k e l. ground arith) h),
  );
}

pub rename_kept :
    (id : Uuid) (name : Text) (d : Db)
    → WithinQuota d
    → WithinQuota (record d {
      networks = update_rows (λ n. n.id == id) (λ n. record n { name = name }) d.networks;
    })
rename_kept id name d q = record {
  distinct =
      AllPairs-update_rows _ (λ n. n.id == id) (λ n. record n { name = name }) d.networks
        (λ x y r. ground arith) q.distinct;
  node = omega (
    arith,
    q.node,
    count_rows-update_rows (λ n. is_live n.state) (λ n. n.id == id) (λ n. record n { name = name })
        d.networks (All-of_holds _ d.networks (λ n e l. l)),
  );
  user = λ u. omega (
    arith,
    q.user u,
    count_rows-update_rows (λ n. n.owner_user_id == u && is_live n.state) (λ n. n.id == id)
        (λ n. record n { name = name }) d.networks (All-of_holds _ d.networks (λ n e l. l)),
  );
}

pub delete_kept :
    (id : Uuid) (d : Db)
    → WithinQuota d
    → WithinQuota (record d { networks = where_rows (λ n. not (n.id == id)) d.networks })
delete_kept id d q = record {
  distinct = AllPairs-where_rows _ (λ n. not (n.id == id)) d.networks q.distinct;
  node = omega (
    arith,
    q.node,
    count_rows-where_rows (λ n. is_live n.state) (λ n. not (n.id == id)) d.networks,
  );
  user = λ u. omega (
    arith,
    q.user u,
    count_rows-where_rows (λ n. n.owner_user_id == u && is_live n.state) (λ n. not (n.id == id))
        d.networks,
  );
}

-- A row that is not live can be stored, and one more live row while there is room.
pub create_kept :
    (net : PrivateNetwork) (d : Db)
    → any (network_conflict net) d.networks ≡ false
    → live_count d.networks < max_networks_per_node
    → live_count_of net.owner_user_id d.networks < max_networks_per_user
    → WithinQuota d
    → WithinQuota (record d { networks = d.networks ++ net ∷ [] })
create_kept net d c n u q = record {
  distinct = AllPairs-snoc _ d.networks net q.distinct (
      All-map_with _ _ d.networks (λ m k. ground arith)
        (All-of_any (network_conflict net) d.networks c));
  node = ground (arith, count_rows-snoc (λ n. is_live n.state) d.networks net);
  user = λ v. ground (
    arith,
    q.user v,
    count_rows-snoc (λ n. n.owner_user_id == v && is_live n.state) d.networks net,
  );
}
