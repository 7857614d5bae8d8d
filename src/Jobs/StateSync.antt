-- ===== src/Jobs/StateSync.antt =====
-- The reconciliation of stored container states with Proxmox (backend/src/jobs/state_sync.rs).
pub mod Pass
use hzelmaim.Prelude.{Bool, true, false, Option, none, some, List, [], ◌∷◌, if◌then◌else◌}
use hzelmaim.Models.Container.{ContainerRecord, ContainerState}
use hzelmaim.Models.Proxmox.{ContainerRuntimeStatus}
use hzelmaim.World.{M, ◌>>=◌, ◌>>◌, pure, attempt, match_result}
use hzelmaim.Db.ContainerRepo
use hzelmaim.Services.ContainerService.{container_status}

-- An unknown status is not stored.
abbrev pub observed : ContainerRuntimeStatus → Option ContainerState
observed ContainerRuntimeStatus.running = some ContainerState.running
observed ContainerRuntimeStatus.stopped = some ContainerState.stopped
observed ContainerRuntimeStatus.unknown = none

unfoldable pub should_update : ContainerState → ContainerState → Bool
should_update ContainerState.running ContainerState.running = false
should_update ContainerState.stopped ContainerState.stopped = false
should_update ContainerState.provisioning _ = false
should_update _ _ = true

-- A failure to store the state is only reported in the program's own log.
unfoldable pub reconcile : ContainerRecord → Option ContainerState → M (Unit {0})
reconcile container none = pure tt
reconcile container (some new_state) =
    if should_update container.state new_state
    then (do _ ← attempt (ContainerRepo.update_state container.id new_state); pure tt)
    else pure tt

-- The body of the loop.
unfoldable pub sync_container : ContainerRecord → M (Unit {0})
sync_container container = do
  answer ← attempt (container_status container.proxmox_ctid)
  match_result answer (λ actual. reconcile container (observed actual)) (λ e. pure tt)

unfoldable pub sync_all : List ContainerRecord → M (Unit {0})
sync_all [] = pure tt
sync_all (container ∷ containers) = sync_container container >> sync_all containers

unfoldable pub sync_once : M (Unit {0})
sync_once = do answer ← attempt ContainerRepo.list_all; match_result answer sync_all (λ e. pure tt)
