-- ===== src/Examples/Containers.antt =====
-- The theorems on containers at sample values, and runs of the service.
use hzelmaim.Prelude.{ℕ, ◌≡◌, refl, ◌≢◌, ◌↔◌, ◌⊎◌, true, some, arith}
use hzelmaim.Models.Container.{
  has, from_preset, to_preset_name, preset_owner, preset_operator, preset_viewer, ContainerState,
  perm_view,
}
use hzelmaim.Models.Container.Presets.{has_trans, preset_names}
use hzelmaim.Models.Proxmox.{ContainerRuntimeStatus}
use hzelmaim.World.{Effect, clock}
use hzelmaim.Services.ContainerService.{
  start, stop, restart, poll, poll_fuel, invite_by_email, respond_to_invitation, state_poll_timeout,
}
use hzelmaim.Services.ContainerService.Access.{Untouched}
use hzelmaim.Services.ContainerService.Sharing.{InviteOutcome, invite_by_email_lem}
use hzelmaim.Services.ContainerService.Responses.{ResponseOutcome, respond_to_invitation_lem}
use hzelmaim.Services.ContainerService.Polling.{Ends, Monotone, poll-enough_fuel}
use hzelmaim.Services.ContainerService.Lifecycle.{Managed, start_lem, stop_lem, restart_lem}
use hzelmaim.Examples.{sample_world, sample_db, alice, bob, quiet, carol}

quiet-Monotone : Monotone quiet
quiet-Monotone = λ n. omega arith

start_lem_example :
    Untouched sample_world (start bob 20 sample_world).1
    ⊎ Managed Effect.start_container bob 20 ContainerState.running ContainerRuntimeStatus.running
        sample_world
        (start bob 20 sample_world).1
start_lem_example = start_lem bob 20 sample_world quiet-Monotone

stop_lem_example :
    Untouched sample_world (stop bob 20 sample_world).1
    ⊎ Managed Effect.stop_container bob 20 ContainerState.stopped ContainerRuntimeStatus.stopped
        sample_world
        (stop bob 20 sample_world).1
stop_lem_example = stop_lem bob 20 sample_world quiet-Monotone

restart_lem_example :
    Untouched sample_world (restart bob 20 sample_world).1
    ⊎ Managed Effect.restart_container bob 20 ContainerState.running ContainerRuntimeStatus.running
        sample_world
        (restart bob 20 sample_world).1
restart_lem_example = restart_lem bob 20 sample_world quiet-Monotone

poll-enough_fuel_example :
    Ends 900 ContainerRuntimeStatus.stopped state_poll_timeout sample_world
      (poll poll_fuel (clock sample_world) 900 ContainerRuntimeStatus.stopped sample_world).0
      (poll poll_fuel (clock sample_world) 900 ContainerRuntimeStatus.stopped sample_world).1
poll-enough_fuel_example =
    poll-enough_fuel 900 ContainerRuntimeStatus.stopped sample_world quiet-Monotone

-- Alice invites Bob as a viewer.
invite_by_email_lem_example :
    InviteOutcome alice 20 preset_viewer sample_db
      (invite_by_email alice 20 "bob@example.org" preset_viewer sample_world).0
      (invite_by_email alice 20 "bob@example.org" preset_viewer sample_world).1.db
invite_by_email_lem_example =
    invite_by_email_lem alice 20 "bob@example.org" preset_viewer sample_world

-- Carol accepts her invitation.
respond_to_invitation_lem_example :
    ResponseOutcome carol 40 "accepted" sample_db
      (respond_to_invitation carol 40 "accepted" sample_world).0
      (respond_to_invitation carol 40 "accepted" sample_world).1.db
respond_to_invitation_lem_example = respond_to_invitation_lem carol 40 "accepted" sample_world

has_trans_example : has preset_owner perm_view ≡ true
has_trans_example =
    has_trans preset_owner preset_operator perm_view (unfold has in refl) (unfold has in refl)

preset_names_example :
    (to_preset_name 63 ≡ some "operator") ↔ ((from_preset "operator" ≡ 63) × (◌≢◌ {A = ℕ} 63 0))
preset_names_example = preset_names 63 "operator"
