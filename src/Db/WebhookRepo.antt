-- ===== src/Db/WebhookRepo.antt =====
-- Webhook persistence (backend/src/db/webhook_repo.rs), with the constraints of
-- backend/migrations/20240103000000_webhooks.sql.
use hzelmaim.Prelude.{
  ℕ, Bool, false, not, ◌&&◌, ◌||◌, Option, none, some, List, [], ◌∷◌, ◌++◌, String, ◌==◌, leb, suc,
  zero, map, str_eq, any, where_rows, find_row, update_rows, order_by, if◌then◌else◌,
}
use hzelmaim.Models.User.{Uuid, DateTime}
use hzelmaim.Models.DeliveryStatus.{DeliveryStatus, as_str}
use hzelmaim.Models.Webhook.{
  WebhookConfig, WebhookDelivery, WebhookDeliveryRow, DeliveryError, UpdateWebhookConfigRequest,
  from_row,
}
use hzelmaim.World.{M, Db, select, execute, update, utc_now, ◌>>=◌}

-- CHECK (provider IN ('github', 'forgejo')).
abbrev pub known_provider : String → Bool
known_provider p = str_eq p "github" || str_eq p "forgejo"

-- PRIMARY KEY (id), CHECK on the provider, REFERENCES containers(id).
abbrev pub config_conflict : WebhookConfig → Db → Bool
config_conflict cfg d =
    any (λ (c : WebhookConfig). c.id == cfg.id) d.webhook_configs
    || not (known_provider cfg.provider)
    || not (any (λ c. c.id == cfg.container_id) d.containers)

unfoldable pub create_config : WebhookConfig → M (Unit {0})
create_config cfg = execute λ d.
    if config_conflict cfg d
    then none
    else some (record d { webhook_configs = d.webhook_configs ++ cfg ∷ [] })

unfoldable pub list_configs : Uuid → M (List WebhookConfig)
list_configs container_id = select λ d.
    order_by (λ a b. leb b.created_at a.created_at)
      (where_rows (λ c. c.container_id == container_id) d.webhook_configs)

unfoldable pub get_config : Uuid → M (Option WebhookConfig)
get_config webhook_id = select (λ d. find_row (λ c. c.id == webhook_id) d.webhook_configs)

abbrev pub set_or : {A : Type 0} → Option A → A → A
set_or (some v) old = v
set_or none old = old

-- SET of the fields that are given, and of `updated_at`.
unfoldable pub updated : UpdateWebhookConfigRequest → DateTime → WebhookConfig → WebhookConfig
updated req now c = record c {
  provider = set_or req.provider c.provider;
  webhook_secret = set_or req.webhook_secret c.webhook_secret;
  branch = set_or req.branch c.branch;
  working_dir = set_or req.working_dir c.working_dir;
  post_pull_cmd = set_or req.post_pull_cmd c.post_pull_cmd;
  updated_at = now;
}

abbrev unknown_given : Option String → Bool
unknown_given (some p) = not (known_provider p)
unknown_given none = false

-- The CHECK is tested on the rows that the statement changes.
abbrev pub update_conflict : Uuid → UpdateWebhookConfigRequest → Db → Bool
update_conflict webhook_id req d =
    unknown_given req.provider && any (λ (c : WebhookConfig). c.id == webhook_id) d.webhook_configs

unfoldable pub update_config : Uuid → UpdateWebhookConfigRequest → M (Unit {0})
update_config webhook_id req = do
  now ← utc_now
  execute λ d.
      if update_conflict webhook_id req d
      then none
      else some (record d {
        webhook_configs = update_rows (λ c. c.id == webhook_id) (updated req now) d.webhook_configs;
      })

-- ON DELETE CASCADE removes the deliveries.
unfoldable pub delete_config : Uuid → M (Unit {0})
delete_config webhook_id = update λ d. record d {
  webhook_configs = where_rows (λ c. not (c.id == webhook_id)) d.webhook_configs;
  webhook_deliveries = where_rows (λ r. not (r.webhook_id == webhook_id)) d.webhook_deliveries;
}

unfoldable pub to_row : WebhookDelivery → WebhookDeliveryRow
to_row d = record {
  id = d.id;
  webhook_id = d.webhook_id;
  delivery_id = d.delivery_id;
  provider = d.provider;
  event_type = d.event_type;
  branch = d.branch;
  head_commit_id = d.head_commit_id;
  status = as_str d.status;
  error_message = d.error_message;
  received_at = d.received_at;
  completed_at = d.completed_at;
}

-- PRIMARY KEY (id), REFERENCES webhook_configs(id).
abbrev pub delivery_conflict : WebhookDelivery → Db → Bool
delivery_conflict delivery d =
    any (λ (r : WebhookDeliveryRow). r.id == delivery.id) d.webhook_deliveries
    || not (any (λ (c : WebhookConfig). c.id == delivery.webhook_id) d.webhook_configs)

unfoldable pub create_delivery : WebhookDelivery → M (Unit {0})
create_delivery delivery = execute λ d.
    if delivery_conflict delivery d
    then none
    else some (record d { webhook_deliveries = d.webhook_deliveries ++ to_row delivery ∷ [] })

unfoldable pub set_status :
    DeliveryStatus
    → Option DeliveryError
    → Option DateTime
    → WebhookDeliveryRow
    → WebhookDeliveryRow
set_status status error_message completed_at r = record r {
  status = as_str status;
  error_message = error_message;
  completed_at = completed_at;
}

unfoldable pub update_delivery_status :
    Uuid → DeliveryStatus → Option DeliveryError → Option DateTime → M (Unit {0})
update_delivery_status delivery_row_id status error_message completed_at = update λ d. record d {
  webhook_deliveries =
      update_rows (λ r. r.id == delivery_row_id) (set_status status error_message completed_at)
        d.webhook_deliveries;
}

-- LIMIT.
abbrev limited : {A : Type 0} → ℕ → List A → List A
limited zero xs = []
limited (suc n) [] = []
limited (suc n) (x ∷ xs) = x ∷ limited n xs

-- A limit that is not negative.
unfoldable pub list_deliveries : Uuid → ℕ → M (List WebhookDelivery)
list_deliveries webhook_id limit = select λ d. map from_row (
    limited limit (
      order_by (λ a b. leb b.received_at a.received_at)
        (where_rows (λ r. r.webhook_id == webhook_id) d.webhook_deliveries)))
