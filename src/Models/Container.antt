-- ===== src/Models/Container.antt =====
-- Permission bits, presets and container records (backend/src/models/container.rs).
-- An `i32` bitmask is its two's complement bit pattern, a number below 2 ^ 32.
pub mod Presets
use hzelmaim.Prelude.{
  ℕ, ℤ, Bool, Option, none, some, String, bit_and, bit_or, ◌==◌, str_eq, if◌then◌else◌,
}
use hzelmaim.Models.User.{Uuid, DateTime}

abbrev pub perm_view : ℕ
perm_view = 0b0000_0001

abbrev pub perm_read_metrics : ℕ
perm_read_metrics = 0b0000_0010

abbrev pub perm_start_stop : ℕ
perm_start_stop = 0b0000_0100

abbrev pub perm_terminal : ℕ
perm_terminal = 0b0000_1000

abbrev pub perm_webhooks : ℕ
perm_webhooks = 0b0001_0000

abbrev pub perm_networks : ℕ
perm_networks = 0b0010_0000

abbrev pub perm_share : ℕ
perm_share = 0b0100_0000

abbrev pub perm_delete : ℕ
perm_delete = 0b1000_0000

abbrev pub preset_viewer : ℕ
preset_viewer = bit_or perm_view perm_read_metrics

abbrev pub preset_operator : ℕ
preset_operator =
    bit_or
      (bit_or (bit_or (bit_or (bit_or perm_view perm_read_metrics) perm_start_stop) perm_terminal)
        perm_webhooks)
      perm_networks

abbrev pub preset_owner : ℕ
preset_owner = 0b1111_1111

-- `Permissions::has`: all bits of `flag` are set.
unfoldable pub has : ℕ → ℕ → Bool
has permissions flag = bit_and permissions flag == flag

pub data AccessLevel : Type 0 where
  owner operator viewer : AccessLevel

unfoldable pub from_preset : String → ℕ
from_preset level =
    if str_eq level "owner"
    then preset_owner
    else if str_eq level "operator"
    then preset_operator
    else if str_eq level "viewer"
    then preset_viewer
    else 0

unfoldable pub to_preset_name : ℕ → Option String
to_preset_name p =
    if p == preset_owner
    then some "owner"
    else if p == preset_operator
    then some "operator"
    else if p == preset_viewer
    then some "viewer"
    else none

pub data ContainerState : Type 0 where
  provisioning running stopped failed : ContainerState

pub record ContainerRecord : Type 0 where
  pub id : Uuid
  pub proxmox_ctid : ℕ
  pub name : String
  pub node_name : String
  pub cpu_cores : ℤ
  pub memory_mb : ℤ
  pub disk_gb : ℤ
  pub state : ContainerState
  pub created_at : DateTime

pub record ContainerWithPermissions : Type 0 where
  pub container : ContainerRecord
  pub permissions : ℕ

-- A row of `container_ownerships`.
pub record ContainerOwnership : Type 0 where
  pub container_id : Uuid
  pub user_id : Uuid
  pub access_level : String
  pub is_primary : Bool
  pub permissions : ℕ

pub record ContainerInvitation : Type 0 where
  pub id : Uuid
  pub container_id : Uuid
  pub user_id : Uuid
  pub invited_by : Uuid
  pub invited_at : DateTime
  pub responded_at : Option DateTime
  pub response : Option String
  pub permissions : ℕ
