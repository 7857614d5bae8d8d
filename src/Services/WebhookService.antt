-- ===== src/Services/WebhookService.antt =====
-- Webhook configurations, inbound events and deployments
-- (backend/src/services/webhook_service.rs).
pub mod Validation
pub mod Configs
pub mod Outcome
pub mod Events
pub mod Inbound
pub mod Deployments
pub mod Requests
pub mod Authority
use hzelmaim.Prelude.{
  ℕ, Bool, true, false, not, ◌&&◌, ◌||◌, Option, none, some, List, ◌++◌, ◌==◌, leb, ltb, any, all,
  length, if◌then◌else◌,
}
use hzelmaim.Prelude.Bytes.{Bytes, bytes_eq, starts_with}
use hzelmaim.Prelude.Text.{codes, is_empty}
use hzelmaim.Api.{
  Result, ok, err, ok_or, validation, bad_request, forbidden, webhook_not_found,
  container_not_found,
}
use hzelmaim.Models.User.{Uuid, AuthenticatedUser, effective_role, is_admin}
use hzelmaim.Models.Container.{has, perm_webhooks}
use hzelmaim.Models.DeliveryStatus.{DeliveryStatus}
use hzelmaim.Models.Ssh.{ExecOutput}
use hzelmaim.Models.Webhook.{
  WebhookConfig, WebhookDelivery, DeliveryError, CreateWebhookConfigRequest,
  UpdateWebhookConfigRequest, exited, ssh_error,
}
use hzelmaim.World.{M, ◌>>=◌, ◌>>◌, pure, lift, attempt, utc_now, new_v4}
use hzelmaim.Webhooks.Hmac.{HmacSha256}
use hzelmaim.Api.Headers.{HeaderMap}
use hzelmaim.Webhooks.Provider.{WebhookEvent, is_ping, as_str}
use hzelmaim.Webhooks.Github.{PushPayload}
use hzelmaim.Webhooks.Registry
use hzelmaim.Db.ContainerRepo
use hzelmaim.Db.WebhookRepo
use hzelmaim.Services.TerminalService.{exec_command}

-- `validation(…)` when the condition holds.
abbrev pub reject_if : Bool → Result (Unit {0}) → Result (Unit {0})
reject_if true rest = err validation
reject_if false rest = rest

abbrev pub and_then : Result (Unit {0}) → Result (Unit {0}) → Result (Unit {0})
and_then (ok u) rest = rest
and_then (err e) rest = err e

abbrev pub is_control : ℕ → Bool
is_control b = b == 0 || b == 39 || ltb b 32

abbrev pub is_ascii_alphanumeric : ℕ → Bool
is_ascii_alphanumeric b =
    (leb 48 b && leb b 57) || (leb 65 b && leb b 90) || (leb 97 b && leb b 122)

abbrev pub is_branch_byte : ℕ → Bool
is_branch_byte b = is_ascii_alphanumeric b || b == 46 || b == 95 || b == 47 || b == 45

unfoldable pub validate_branch : Bytes → Result (Unit {0})
validate_branch branch = reject_if (is_empty branch) (
    reject_if (ltb 255 (length branch))
      (reject_if (any is_control branch) (reject_if (not (all is_branch_byte branch)) (ok tt))))

abbrev pub is_quote : ℕ → Bool
is_quote b = b == 0 || b == 39

unfoldable pub validate_working_dir : Bytes → Result (Unit {0})
validate_working_dir dir = reject_if (is_empty dir) (
    reject_if (ltb 4096 (length dir))
      (reject_if (any is_quote dir) (reject_if (not (starts_with (codes "/") dir)) (ok tt))))

abbrev pub bad_secret : Bytes → Bool
bad_secret s = ltb (length s) 16 || ltb 512 (length s)

unfoldable pub validate_create : CreateWebhookConfigRequest → Result (Unit {0})
validate_create req = and_then (validate_branch req.branch) (
    and_then (validate_working_dir req.working_dir) (
      reject_if (ltb 4096 (length req.post_pull_cmd))
        (reject_if (bad_secret req.webhook_secret) (ok tt))))

abbrev pub is_none : {A : Type 0} → Option A → Bool
is_none none = true
is_none (some a) = false

-- `if let Some(v) = …`.
abbrev pub if_given : Option Bytes → (Bytes → Result (Unit {0})) → Result (Unit {0})
if_given none check = ok tt
if_given (some v) check = check v

unfoldable pub validate_update : UpdateWebhookConfigRequest → Result (Unit {0})
validate_update req =
    reject_if
      (is_none req.provider
        && is_none req.webhook_secret
        && is_none req.branch
        && is_none req.working_dir
        && is_none req.post_pull_cmd)
      (and_then (if_given req.branch validate_branch) (
        and_then (if_given req.working_dir validate_working_dir) (
          and_then (if_given req.webhook_secret (λ s. reject_if (bad_secret s) (ok tt)))
            (if_given req.post_pull_cmd (λ c. reject_if (ltb 4096 (length c)) (ok tt))))))

unfoldable pub require_permission : AuthenticatedUser → Uuid → ℕ → M (Unit {0})
require_permission actor container_id flag = if is_admin (effective_role actor) then pure tt else do
  perms ← ContainerRepo.get_permissions container_id actor.user_id
  if not (has perms flag) then lift (err forbidden) else pure tt

unfoldable pub create_config :
    AuthenticatedUser → Uuid → CreateWebhookConfigRequest → M WebhookConfig
create_config actor container_id req = do
  require_permission actor container_id perm_webhooks
  lift (validate_create req)
  now ← utc_now
  id ← new_v4
  let cfg : WebhookConfig = record {
    id = id;
    container_id = container_id;
    provider = req.provider;
    webhook_secret = req.webhook_secret;
    branch = req.branch;
    working_dir = req.working_dir;
    post_pull_cmd = req.post_pull_cmd;
    created_at = now;
    updated_at = now;
  }
  WebhookRepo.create_config cfg
  pure cfg

unfoldable pub list_configs : AuthenticatedUser → Uuid → M (List WebhookConfig)
list_configs actor container_id = do
  require_permission actor container_id perm_webhooks
  WebhookRepo.list_configs container_id

unfoldable pub get_config : AuthenticatedUser → Uuid → M WebhookConfig
get_config actor webhook_id = do
  found ← WebhookRepo.get_config webhook_id
  cfg ← lift (ok_or found webhook_not_found)
  require_permission actor cfg.container_id perm_webhooks
  pure cfg

unfoldable pub update_config :
    AuthenticatedUser → Uuid → UpdateWebhookConfigRequest → M WebhookConfig
update_config actor webhook_id req = do
  found ← WebhookRepo.get_config webhook_id
  cfg ← lift (ok_or found webhook_not_found)
  require_permission actor cfg.container_id perm_webhooks
  lift (validate_update req)
  WebhookRepo.update_config webhook_id req
  refreshed ← WebhookRepo.get_config webhook_id
  lift (ok_or refreshed webhook_not_found)

unfoldable pub delete_config : AuthenticatedUser → Uuid → M (Unit {0})
delete_config actor webhook_id = do
  found ← WebhookRepo.get_config webhook_id
  cfg ← lift (ok_or found webhook_not_found)
  require_permission actor cfg.container_id perm_webhooks
  WebhookRepo.delete_config webhook_id

unfoldable pub list_deliveries : AuthenticatedUser → Uuid → ℕ → M (List WebhookDelivery)
list_deliveries actor webhook_id limit = do
  found ← WebhookRepo.get_config webhook_id
  cfg ← lift (ok_or found webhook_not_found)
  require_permission actor cfg.container_id perm_webhooks
  WebhookRepo.list_deliveries webhook_id limit

-- The task that `tokio::spawn` is given.
pub record Deployment : Type 0 where
  pub delivery : WebhookDelivery
  pub config : WebhookConfig
  pub ctid : ℕ

-- How the handling of an event ends, when it does not fail.
pub data Incoming : Type 0 where
  answered : Incoming
  spawned : Deployment → Incoming
  panicked : Incoming

-- The value of a call that may panic or fail, for the rest.
unfoldable pub unless_panicked : {A : Type 0} → Option (Result A) → (A → M Incoming) → M Incoming
unless_panicked none rest = pure panicked
unless_panicked (some r) rest = lift r >>= rest

abbrev pub skip : Uuid → M Incoming
skip id = do WebhookRepo.update_delivery_status id DeliveryStatus.skipped none none; pure answered

-- From the container's lookup on.
unfoldable pub launch : WebhookConfig → WebhookDelivery → M Incoming
launch config delivery = do
  found ← ContainerRepo.get config.container_id
  container ← lift (ok_or found container_not_found)
  WebhookRepo.update_delivery_status delivery.id DeliveryStatus.running none none
  pure (spawned (record { delivery = delivery; config = config; ctid = container.proxmox_ctid }))

-- From the delivery row on.
unfoldable pub deliver : WebhookConfig → WebhookEvent → M Incoming
deliver config event = do
  id ← new_v4
  now ← utc_now
  let delivery : WebhookDelivery = record {
    id = id;
    webhook_id = config.id;
    delivery_id = event.delivery_id;
    provider = config.provider;
    event_type = as_str event.event_type;
    branch = event.branch;
    head_commit_id = event.head_commit_id;
    status = DeliveryStatus.pending;
    error_message = none;
    received_at = now;
    completed_at = none;
  }
  WebhookRepo.create_delivery delivery
  if is_ping event.event_type
      then skip id
      else if not (bytes_eq event.branch config.branch)
      then skip id
      else launch config delivery

module _ (hmac : HmacSha256) (from_slice : Bytes → Option PushPayload) where
  unfoldable pub handle_incoming : Uuid → HeaderMap → Bytes → M Incoming
  handle_incoming webhook_id headers raw_body = do
    found ← WebhookRepo.get_config webhook_id
    config ← lift (ok_or found webhook_not_found)
    provider ← lift (ok_or (Registry.get config.provider) bad_request)
    unless_panicked (Registry.verify hmac provider headers raw_body config.webhook_secret) λ _.
        unless_panicked (Registry.parse_event from_slice provider headers raw_body)
          λ event. deliver config event

-- The command line of a deployment.
unfoldable pub deploy_command : WebhookConfig → Bytes
deploy_command config =
    codes "cd '" ++ (config.working_dir ++ (codes "' && " ++ config.post_pull_cmd))

unfoldable pub outcome : Result ExecOutput → DeliveryStatus × Option DeliveryError
outcome (ok output) =
    if output.exit_code == 0
    then (DeliveryStatus.succeeded, none)
    else (DeliveryStatus.failed, some (exited output.exit_code output.stderr))
outcome (err e) = (DeliveryStatus.failed, some (ssh_error e))

unfoldable pub run_deployment : Deployment → M (Unit {0})
run_deployment task = do
  result ← attempt (exec_command task.ctid (deploy_command task.config))
  completed_at ← utc_now
  _ ← attempt (
      WebhookRepo.update_delivery_status task.delivery.id (outcome result).0 (outcome result).1
        (some completed_at))
  pure tt
