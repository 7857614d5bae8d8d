-- ===== src/Services/ContainerService.antt =====
-- Container lifecycle and sharing (backend/src/services/container_service.rs).
pub mod Access
pub mod Sharing
pub mod Responses
pub mod Polling
pub mod Lifecycle
use hzelmaim.Prelude.{
  ℕ, zero, suc, ◌-◌, as_signed, not, ◌&&◌, Option, none, some, List, String, ◌==◌, leb, bit_and,
  str_eq, if◌then◌else◌,
}
use hzelmaim.Api.{err, ok_or, internal, forbidden, bad_request, not_found, container_not_found}
use hzelmaim.Models.User.{Uuid, DateTime, AuthenticatedUser, effective_role, is_admin}
use hzelmaim.Models.Container.{
  ContainerRecord, ContainerState, ContainerInvitation, ContainerWithPermissions, has, preset_owner,
  perm_view, perm_start_stop, perm_share,
}
use hzelmaim.Models.Proxmox.{CreateContainerRequest, ContainerRuntimeStatus, status_eq}
use hzelmaim.World.{
  ◌>>=◌, ◌>>◌, M, Effect, pure, lift, attempt, match_result, utc_now, new_v4, call, sleep,
}
use hzelmaim.Db.ContainerRepo
use hzelmaim.Services.AuditService

-- The calls of `ProxmoxClient`.
abbrev pub start_container : ℕ → M (Unit {0})
start_container ctid = call (Effect.start_container ctid) (λ _ _. tt)

abbrev pub stop_container : ℕ → M (Unit {0})
stop_container ctid = call (Effect.stop_container ctid) (λ _ _. tt)

abbrev pub restart_container : ℕ → M (Unit {0})
restart_container ctid = call (Effect.restart_container ctid) (λ _ _. tt)

abbrev pub container_status : ℕ → M ContainerRuntimeStatus
container_status ctid = call (Effect.container_status ctid) (λ e n. e.proxmox_status n)

unfoldable pub list_for_user : AuthenticatedUser → M (List ContainerWithPermissions)
list_for_user actor = ContainerRepo.list_for_user actor.user_id

unfoldable pub get_permissions_for_user : AuthenticatedUser → Uuid → M ℕ
get_permissions_for_user actor container_id =
    if is_admin (effective_role actor)
    then pure preset_owner
    else ContainerRepo.get_permissions container_id actor.user_id

unfoldable pub require_permission : AuthenticatedUser → Uuid → ℕ → M (Unit {0})
require_permission actor container_id flag = if is_admin (effective_role actor) then pure tt else do
  perms ← ContainerRepo.get_permissions container_id actor.user_id
  if not (has perms flag) then lift (err forbidden) else pure tt

unfoldable pub get : AuthenticatedUser → Uuid → M ContainerRecord
get actor container_id = do
  found ← ContainerRepo.get container_id
  container ← lift (ok_or found container_not_found)
  require_permission actor container_id perm_view
  pure container

-- In milliseconds.
abbrev pub state_poll_interval : ℕ
state_poll_interval = 2000

abbrev pub state_poll_timeout : ℕ
state_poll_timeout = 120000

-- The loop of `poll_for_state`; `none` means that the fuel ran out.
unfoldable pub poll : ℕ → DateTime → ℕ → ContainerRuntimeStatus → M (Option ContainerRuntimeStatus)
poll zero start ctid desired = pure none
poll (suc fuel) start ctid desired = do
  answer ← attempt (container_status ctid)
  match_result answer
      (λ status. if status_eq status desired then pure (some status) else do
        now ← utc_now
        if leb state_poll_timeout (now - start)
            then pure (some ContainerRuntimeStatus.unknown)
            else do sleep state_poll_interval; poll fuel start ctid desired)
      (λ e. pure (some ContainerRuntimeStatus.unknown))

-- As many rounds as the timeout has room for.
abbrev pub poll_fuel : ℕ
poll_fuel = 61

abbrev or_unknown : Option ContainerRuntimeStatus → ContainerRuntimeStatus
or_unknown none = ContainerRuntimeStatus.unknown
or_unknown (some s) = s

unfoldable pub poll_for_state : ℕ → ContainerRuntimeStatus → M ContainerRuntimeStatus
poll_for_state ctid desired = do
  start ← utc_now
  last ← poll poll_fuel start ctid desired
  pure (or_unknown last)

-- The state stored after a poll for `Running`, and for `Stopped`.
abbrev pub confirmed_running : ContainerRuntimeStatus → ContainerState
confirmed_running ContainerRuntimeStatus.running = ContainerState.running
confirmed_running _ = ContainerState.failed

abbrev pub confirmed_stopped : ContainerRuntimeStatus → ContainerState
confirmed_stopped ContainerRuntimeStatus.stopped = ContainerState.stopped
confirmed_stopped _ = ContainerState.failed

-- The end of `start`, `stop` and `restart`: store the verified state, log, and read back.
store_and_reload : AuthenticatedUser → Uuid → ContainerState → String → M ContainerRecord
store_and_reload actor container_id new_state action = do
  ContainerRepo.update_state container_id new_state
  AuditService.log_success (some actor.user_id) (some container_id) action
  found ← ContainerRepo.get container_id
  lift (ok_or found internal)

unfoldable pub start : AuthenticatedUser → Uuid → M ContainerRecord
unfolding store_and_reload
start actor container_id = do
  container ← get actor container_id
  require_permission actor container_id perm_start_stop
  start_container container.proxmox_ctid
  actual ← poll_for_state container.proxmox_ctid ContainerRuntimeStatus.running
  store_and_reload actor container_id (confirmed_running actual) "container.start"

unfoldable pub stop : AuthenticatedUser → Uuid → M ContainerRecord
unfolding store_and_reload
stop actor container_id = do
  container ← get actor container_id
  require_permission actor container_id perm_start_stop
  stop_container container.proxmox_ctid
  actual ← poll_for_state container.proxmox_ctid ContainerRuntimeStatus.stopped
  store_and_reload actor container_id (confirmed_stopped actual) "container.stop"

unfoldable pub restart : AuthenticatedUser → Uuid → M ContainerRecord
unfolding store_and_reload
restart actor container_id = do
  container ← get actor container_id
  require_permission actor container_id perm_start_stop
  restart_container container.proxmox_ctid
  actual ← poll_for_state container.proxmox_ctid ContainerRuntimeStatus.running
  store_and_reload actor container_id (confirmed_running actual) "container.restart"

unfoldable pub create : AuthenticatedUser → CreateContainerRequest → M ContainerRecord
create actor request = do
  ctid ← call (Effect.create_container request) (λ e n. e.proxmox_ctid n)
  id ← new_v4
  now ← utc_now
  ContainerRepo.create
      (record {
        id = id;
        proxmox_ctid = ctid;
        name = request.hostname;
        node_name = request.node_name;
        cpu_cores = as_signed 16 request.resource_limits.cpu_cores;
        memory_mb = as_signed 32 request.resource_limits.memory_mb;
        disk_gb = as_signed 32 request.resource_limits.disk_gb;
        state = ContainerState.provisioning;
        created_at = now;
      })
      actor.user_id
  AuditService.log_success (some actor.user_id) (some id) "container.create"
  started ← attempt (start_container ctid)
  new_state ←
      match_result started
        (λ _. do
          actual ← poll_for_state ctid ContainerRuntimeStatus.running
          pure (confirmed_running actual))
        (λ e. pure ContainerState.failed)
  ContainerRepo.update_state id new_state
  found ← ContainerRepo.get id
  lift (ok_or found internal)

unfoldable pub invite_by_email : AuthenticatedUser → Uuid → String → ℕ → M ContainerInvitation
invite_by_email actor container_id email permissions = do
  require_permission actor container_id perm_share
  if bit_and permissions perm_view == 0 then lift (err bad_request) else do
    actor_perms ← get_permissions_for_user actor container_id
    if not (bit_and permissions actor_perms == permissions) then lift (err forbidden) else do
      found ← ContainerRepo.find_user_by_email email
      user_id ← lift (ok_or found not_found)
      id ← new_v4
      now ← utc_now
      let inv : ContainerInvitation = record {
        id = id;
        container_id = container_id;
        user_id = user_id;
        invited_by = actor.user_id;
        invited_at = now;
        responded_at = none;
        response = none;
        permissions = permissions;
      }
      ContainerRepo.create_container_invitation inv
      pure inv

unfoldable pub pending_invitations : AuthenticatedUser → M (List ContainerInvitation)
pending_invitations actor = ContainerRepo.pending_container_invitations actor.user_id

unfoldable pub respond_to_invitation : AuthenticatedUser → Uuid → String → M (Unit {0})
respond_to_invitation actor invitation_id response =
    if not (str_eq response "accepted") && not (str_eq response "declined")
    then lift (err bad_request)
    else do
      found ← ContainerRepo.get_container_invitation invitation_id
      inv ← lift (ok_or found not_found)
      if not (inv.user_id == actor.user_id)
          then lift (err forbidden)
          else ContainerRepo.respond_to_container_invitation invitation_id inv.container_id
              actor.user_id response inv.permissions
