-- ===== src/Services/WebhookService/Outcome.antt =====
-- What an inbound event may leave behind.
use hzelmaim.Prelude.{
  ℕ, suc, ◌≤◌, ◌≡◌, ◌⊎◌, refl, ◌∙◌, Bool, true, false, none, some, [], ◌∷◌, ◌++◌, any, find_row,
  arith, ◌==◌,
}
use hzelmaim.Api.{Result, ok, err}
use hzelmaim.Models.User.{Uuid, DateTime}
use hzelmaim.Models.Container.{ContainerRecord}
use hzelmaim.Models.DeliveryStatus.{DeliveryStatus, pending, running, skipped}
use hzelmaim.Models.Webhook.{WebhookConfig, WebhookDelivery, WebhookDeliveryRow}
use hzelmaim.World.{World, Db, tick}
use hzelmaim.Webhooks.Provider.{WebhookEvent, as_str, push}
use hzelmaim.Db.WebhookRepo.{to_row}
use hzelmaim.Services.WebhookService.{Deployment, Incoming, answered, spawned, panicked}

-- Nothing has been called.
pub record Quiet (w w' : World) : Type 0 where
  pub trace : w'.trace ≡ w.trace
  pub env : w'.env ≡ w.env
  pub steps : w.steps ≤ w'.steps

pub quiet_refl : (w : World) → Quiet w w
quiet_refl w = record { trace = refl; env = refl; steps = omega arith }

pub quiet_then : {u v w : World} → Quiet u v → Quiet v w → Quiet u w
quiet_then a b = record {
  trace = b.trace ∙ a.trace;
  env = b.env ∙ a.env;
  steps = omega (arith, a.steps, b.steps);
}

abbrev pub is_spawned : Result Incoming → Bool
is_spawned (ok (spawned task)) = true
is_spawned (ok answered) = false
is_spawned (ok panicked) = false
is_spawned (err e) = false

abbrev pub new_delivery :
    WebhookConfig → WebhookEvent → Uuid → DateTime → DeliveryStatus → WebhookDelivery
new_delivery config event id now status = record {
  id = id;
  webhook_id = config.id;
  delivery_id = event.delivery_id;
  provider = config.provider;
  event_type = as_str event.event_type;
  branch = event.branch;
  head_commit_id = event.head_commit_id;
  status = status;
  error_message = none;
  received_at = now;
  completed_at = none;
}

abbrev pub with_row : WebhookDelivery → Db → Db
with_row delivery d = record d { webhook_deliveries = d.webhook_deliveries ++ to_row delivery ∷ [] }

-- The task that a running delivery gets.
pub record Spawned (w : World) (config : WebhookConfig) (event : WebhookEvent) (id : Uuid)
    (task : Deployment) : Type 0 where
  pub delivery_id : task.delivery.id ≡ id
  pub config_same : task.config ≡ config
  pub is_push : event.event_type ≡ push
  pub on_branch : event.branch ≡ config.branch
  pub container : ContainerRecord
  pub container_found : find_row (λ c. c.id == config.container_id) w.db.containers ≡ some container
  pub ctid : task.ctid ≡ container.proxmox_ctid

-- One delivery row is added, and a task is spawned only for a row that is running.
pub record Logged (w : World) (config : WebhookConfig) (event : WebhookEvent) (r : Result Incoming)
    (w' : World) : Type 0 where
  pub step : ℕ
  pub step_during : (w.steps ≤ step) × (suc step ≤ w'.steps)
  pub now : DateTime
  pub status : DeliveryStatus
  pub status_early : (status ≡ pending) ⊎ ((status ≡ running) ⊎ (status ≡ skipped))
  pub fresh :
      any (λ (row : WebhookDeliveryRow). row.id == w.env.uuid step) w.db.webhook_deliveries ≡ false
  pub stored : w'.db ≡ with_row (new_delivery config event (w.env.uuid step) now status) w.db
  pub task_running :
      (task : Deployment)
      → r ≡ ok (spawned task)
      → (status ≡ running) × Spawned w config event (w.env.uuid step) task

abbrev pub NoDelivery : World → Result Incoming → World → Type 0
NoDelivery w r w' = (w'.db ≡ w.db) × (is_spawned r ≡ false)

pub ticked : (u : World) → Quiet u (tick u)
ticked u = record { trace = refl; env = refl; steps = omega arith }

abbrev pub EventDone : World → WebhookConfig → WebhookEvent → Result Incoming → World → Type 0
EventDone w config event r w' = Quiet w w' × (NoDelivery w r w' ⊎ Logged w config event r w')
