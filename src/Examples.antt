-- ===== src/Examples.antt =====
-- Sample values on which the theorems are applied: four address blocks, an environment in which
-- nothing fails, and a database with a few rows.
pub mod Networks
pub mod Containers
pub mod Jobs
pub mod Webhooks
pub mod Tokens
pub mod Auth
pub mod Oauth
use hzelmaim.Prelude.{
  ℕ, pos, ◌+◌, ◌-◌, ◌*◌, ◌^◌, ◌≡◌, refl, Bool, true, false, ◌&&◌, Option, none, some, List, [], ◌∷◌,
  String, leb, ltb, str_eq, if◌then◌else◌, arith, ◌%◌, ◌≤◌, ◌<◌, ◌↔◌, ◌==◌, leb→le, le→leb, ltb→lt,
  lt→ltb,
}
use hzelmaim.Models.User.{AuthenticatedUser, UserRole, AuthMethod, UserStatus}
use hzelmaim.Models.Container.{
  ContainerOwnership, ContainerState, preset_owner, preset_viewer, preset_operator,
}
use hzelmaim.Models.IpNet.{IpNet, Laws, range_from, block}
use hzelmaim.Models.Network.{Ipv4Addr, vmbr}
use hzelmaim.Models.NetworkState.{NetworkState}
use hzelmaim.Models.Proxmox.{ContainerRuntimeStatus}
use hzelmaim.World.{World, Env, Db}

-- 10.0.0.0/8, 172.16.0.0/12, 192.168.0.0/16, 192.168.1.0/24 and 192.168.2.0/28.
pub data SampleNet : Type 0 where
  ten one_seven_two one_nine_two home lab : SampleNet

abbrev pub sample_to_string : SampleNet → String
sample_to_string ten = "10.0.0.0/8"
sample_to_string one_seven_two = "172.16.0.0/12"
sample_to_string one_nine_two = "192.168.0.0/16"
sample_to_string home = "192.168.1.0/24"
sample_to_string lab = "192.168.2.0/28"

abbrev pub sample_parse : String → Option SampleNet
sample_parse s =
    if str_eq s "10.0.0.0/8"
    then some ten
    else if str_eq s "172.16.0.0/12"
    then some one_seven_two
    else if str_eq s "192.168.0.0/16"
    then some one_nine_two
    else if str_eq s "192.168.1.0/24"
    then some home
    else if str_eq s "192.168.2.0/28"
    then some lab
    else none

abbrev pub sample_network : SampleNet → Ipv4Addr
sample_network ten = 10 * 2 ^ 24
sample_network one_seven_two = 172 * 2 ^ 24 + 16 * 2 ^ 16
sample_network one_nine_two = 192 * 2 ^ 24 + 168 * 2 ^ 16
sample_network home = 192 * 2 ^ 24 + 168 * 2 ^ 16 + 256
sample_network lab = 192 * 2 ^ 24 + 168 * 2 ^ 16 + 512

abbrev pub sample_prefix_len : SampleNet → ℕ
sample_prefix_len ten = 8
sample_prefix_len one_seven_two = 12
sample_prefix_len one_nine_two = 16
sample_prefix_len home = 24
sample_prefix_len lab = 28

abbrev pub sample_contains : SampleNet → Ipv4Addr → Bool
sample_contains n a =
    leb (sample_network n) a && ltb a (sample_network n + block (sample_prefix_len n))

abbrev pub sample_hosts : SampleNet → List Ipv4Addr
sample_hosts n = range_from (sample_network n + 1) (block (sample_prefix_len n) - 2)

abbrev pub sample_ip : IpNet
sample_ip = record {
  Ipv4Net = SampleNet;
  parse = sample_parse;
  to_string = sample_to_string;
  network = sample_network;
  prefix_len = sample_prefix_len;
  contains = sample_contains;
  hosts = sample_hosts;
}

round_trip : (n : SampleNet) → sample_parse (sample_to_string n) ≡ some n
round_trip ten = refl
round_trip one_seven_two = refl
round_trip one_nine_two = refl
round_trip home = refl
round_trip lab = refl

prefix_small : (n : SampleNet) → sample_prefix_len n ≤ 32
prefix_small ten = omega arith
prefix_small one_seven_two = omega arith
prefix_small one_nine_two = omega arith
prefix_small home = omega arith
prefix_small lab = omega arith

aligned : (n : SampleNet) → sample_network n % block (sample_prefix_len n) ≡ 0
aligned ten = refl
aligned one_seven_two = refl
aligned one_nine_two = refl
aligned home = refl
aligned lab = refl

contains_lem :
    (n : SampleNet) (a : Ipv4Addr)
    → (sample_contains n a ≡ true)
      ↔ ((sample_network n ≤ a) × (a < sample_network n + block (sample_prefix_len n)))
contains_lem n a = (
  λ h. (leb→le _ _ (ground arith), ltb→lt _ _ (ground arith)),
  λ h. ground (arith, le→leb _ _ h.0, lt→ltb _ _ h.1),
)

pub sample_laws : Laws sample_ip
sample_laws = record {
  parse-to_string = round_trip;
  prefix_len-le = prefix_small;
  network_aligned = aligned;
  contains_iff = contains_lem;
  hosts_lem = λ n h. refl;
  ten = record { net = ten; parses = refl; at_base = refl; has_prefix = refl };
  one_seven_two = record { net = one_seven_two; parses = refl; at_base = refl; has_prefix = refl };
  one_nine_two = record { net = one_nine_two; parses = refl; at_base = refl; has_prefix = refl };
}

-- Interaction n happens at time n and draws the id 1000 + n.
abbrev pub quiet : Env
quiet = record {
  db_fault = λ n. false;
  time = λ n. n;
  uuid = λ n. 1000 + n;
  proxmox_fault = λ n. none;
  proxmox_ctid = λ n. 900 + n;
  proxmox_status = λ n. ContainerRuntimeStatus.running;
  channel = λ n. [];
}

abbrev pub member_of : UserRole → ℕ → AuthenticatedUser
member_of role id = record {
  user_id = id;
  session_id = none;
  email = "user@example.org";
  role = role;
  auth_method = AuthMethod.session;
  authenticated_at = 0;
  oauth_scopes = none;
}

-- User 1 owns the container 20 and may share it, user 2 operates it.
abbrev pub alice : AuthenticatedUser
alice = member_of UserRole.user 1

abbrev pub bob : AuthenticatedUser
bob = member_of UserRole.user 2

abbrev pub carol : AuthenticatedUser
carol = member_of UserRole.user 3

abbrev pub ownership : ℕ → ℕ → ContainerOwnership
ownership user permissions = record {
  container_id = 20;
  user_id = user;
  access_level = "owner";
  is_primary = user == 1;
  permissions = permissions;
}

abbrev pub sample_db : Db
sample_db = record {
  users =
      (record {
        id = 1;
        email = "alice@example.org";
        role = UserRole.user;
        status = UserStatus.active;
      })
      ∷ (record {
        id = 2;
        email = "bob@example.org";
        role = UserRole.user;
        status = UserStatus.active;
      })
      ∷ (record {
        id = 3;
        email = "carol@example.org";
        role = UserRole.user;
        status = UserStatus.active;
      })
      ∷ [];
  containers =
      (record {
        id = 20;
        proxmox_ctid = 900;
        name = "web";
        node_name = "pve";
        cpu_cores = pos 1;
        memory_mb = pos 512;
        disk_gb = pos 8;
        state = ContainerState.stopped;
        created_at = 0;
      })
      ∷ [];
  ownerships = ownership 1 preset_owner ∷ ownership 2 preset_operator ∷ [];
  container_invitations =
      (record {
        id = 40;
        container_id = 20;
        user_id = 3;
        invited_by = 1;
        invited_at = 0;
        responded_at = none;
        response = none;
        permissions = preset_viewer;
      })
      ∷ [];
  networks =
      (record {
        id = 30;
        owner_user_id = 1;
        name = 97 ∷ [];
        bridge_name = vmbr 100;
        bridge_id = 100;
        cidr = "192.168.1.0/24";
        state = NetworkState.active;
        created_at = 0;
      })
      ∷ [];
  memberships = [];
  bridge_id_seq = 101;
  audit_logs = [];
  webhook_configs = [];
  webhook_deliveries = [];
  sessions = [];
  api_tokens = [];
  oauth_applications = [];
  oauth_authorization_codes = [];
  oauth_refresh_tokens = [];
}

abbrev pub sample_world : World
sample_world = record { env = quiet; steps = 0; db = sample_db; slept = 0; trace = [] }
