-- ===== src/Webhooks/Provider.antt =====
-- The events of a provider and what a request carries (backend/src/webhooks/provider.rs).
use hzelmaim.Prelude.{Bool, true, false, String}
use hzelmaim.Prelude.Bytes.{Bytes}

pub data WebhookEventType : Type 0 where
  push ping : WebhookEventType

unfoldable pub as_str : WebhookEventType → String
as_str push = "push"
as_str ping = "ping"

-- `event_type == WebhookEventType::Ping`
abbrev pub is_ping : WebhookEventType → Bool
is_ping ping = true
is_ping push = false

pub record WebhookEvent : Type 0 where
  pub event_type : WebhookEventType
  pub delivery_id : Bytes
  pub branch : Bytes
  pub head_commit_id : Bytes
