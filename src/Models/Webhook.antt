-- ===== src/Models/Webhook.antt =====
-- Webhook configurations and deliveries (backend/src/models/webhook.rs), and a row of
-- `webhook_deliveries` (backend/src/db/webhook_repo.rs).
use hzelmaim.Prelude.{ℕ, Option, none, some, String}
use hzelmaim.Prelude.Bytes.{Bytes}
use hzelmaim.Api.{ApiError}
use hzelmaim.Models.User.{Uuid, DateTime}
use hzelmaim.Models.DeliveryStatus.{DeliveryStatus, from_str}

pub record WebhookConfig : Type 0 where
  pub id : Uuid
  pub container_id : Uuid
  pub provider : String
  pub webhook_secret : Bytes
  pub branch : Bytes
  pub working_dir : Bytes
  pub post_pull_cmd : Bytes
  pub created_at : DateTime
  pub updated_at : DateTime

-- The message of a failed deployment, before it is formatted: the exit code with stderr, or the
-- error of SSH.
pub data DeliveryError : Type 0 where
  exited : ℕ → Bytes → DeliveryError
  ssh_error : ApiError → DeliveryError

pub record WebhookDelivery : Type 0 where
  pub id : Uuid
  pub webhook_id : Uuid
  pub delivery_id : Bytes
  pub provider : String
  pub event_type : String
  pub branch : Bytes
  pub head_commit_id : Bytes
  pub status : DeliveryStatus
  pub error_message : Option DeliveryError
  pub received_at : DateTime
  pub completed_at : Option DateTime

-- The status of a stored row is a text.
pub record WebhookDeliveryRow : Type 0 where
  pub id : Uuid
  pub webhook_id : Uuid
  pub delivery_id : Bytes
  pub provider : String
  pub event_type : String
  pub branch : Bytes
  pub head_commit_id : Bytes
  pub status : String
  pub error_message : Option DeliveryError
  pub received_at : DateTime
  pub completed_at : Option DateTime

abbrev or_failed : Option DeliveryStatus → DeliveryStatus
or_failed none = DeliveryStatus.failed
or_failed (some s) = s

-- `From<WebhookDeliveryRow>`.
unfoldable pub from_row : WebhookDeliveryRow → WebhookDelivery
from_row r = record {
  id = r.id;
  webhook_id = r.webhook_id;
  delivery_id = r.delivery_id;
  provider = r.provider;
  event_type = r.event_type;
  branch = r.branch;
  head_commit_id = r.head_commit_id;
  status = or_failed (from_str r.status);
  error_message = r.error_message;
  received_at = r.received_at;
  completed_at = r.completed_at;
}

pub record CreateWebhookConfigRequest : Type 0 where
  pub provider : String
  pub webhook_secret : Bytes
  pub branch : Bytes
  pub working_dir : Bytes
  pub post_pull_cmd : Bytes

pub record UpdateWebhookConfigRequest : Type 0 where
  pub provider : Option String
  pub webhook_secret : Option Bytes
  pub branch : Option Bytes
  pub working_dir : Option Bytes
  pub post_pull_cmd : Option Bytes
