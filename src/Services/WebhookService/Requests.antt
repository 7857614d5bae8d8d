-- ===== src/Services/WebhookService/Requests.antt =====
-- Every operation of the service as one action, and the invariant over any list of them.
use hzelmaim.Prelude.{
  ℕ, ◌≡◌, ap, sym, Option, none, some, List, [], ◌∷◌, ◌++◌, All-find_row, subst, inl, inr,
}
use hzelmaim.Prelude.Bytes.{Bytes}
use hzelmaim.Prelude.Text.{codes}
use hzelmaim.Api.{Result, ok}
use hzelmaim.Models.User.{Uuid, AuthenticatedUser}
use hzelmaim.Models.Webhook.{
  WebhookConfig, WebhookDeliveryRow, CreateWebhookConfigRequest, UpdateWebhookConfigRequest,
}
use hzelmaim.World.{World, Db, M}
use hzelmaim.World.Keeps.{Keeps, Keeps-update, Keeps-checked, Keeps-pure, keeps_rules}
use hzelmaim.Webhooks.Hmac.{HmacSha256, Laws}
use hzelmaim.Api.Headers.{HeaderMap}
use hzelmaim.Webhooks.Provider.{WebhookEvent}
use hzelmaim.Webhooks.Github.{PushPayload}
use hzelmaim.Db.ContainerRepo
use hzelmaim.Db.WebhookRepo
use hzelmaim.Services.TerminalService.{exec_command}
use hzelmaim.Services.WebhookService.{
  Deployment, Incoming, spawned, unless_panicked, create_config, list_configs, get_config,
  update_config, delete_config, list_deliveries, deliver, launch, handle_incoming, run_deployment,
  deploy_command,
}
use hzelmaim.Services.WebhookService.Configs.{
  ValidConfig, ValidConfigs, create_config-Valid, update_config-Valid, delete_config-Valid,
  list_configs-Keeps, get_config-Keeps, list_deliveries-Keeps,
}
use hzelmaim.Services.WebhookService.Deployments.{cd_target, cd_target-deploy_command}
use hzelmaim.Services.WebhookService.Outcome.{is_spawned}
use hzelmaim.Services.WebhookService.Inbound.{handle_incoming_lem}

-- Requests of users, inbound events, and the end of a deployment.
pub data WebhookAction : Type 0 where
  create_config_request : AuthenticatedUser → Uuid → CreateWebhookConfigRequest → WebhookAction
  list_configs_request : AuthenticatedUser → Uuid → WebhookAction
  get_config_request : AuthenticatedUser → Uuid → WebhookAction
  update_config_request : AuthenticatedUser → Uuid → UpdateWebhookConfigRequest → WebhookAction
  delete_config_request : AuthenticatedUser → Uuid → WebhookAction
  list_deliveries_request : AuthenticatedUser → Uuid → ℕ → WebhookAction
  incoming : Uuid → HeaderMap → Bytes → WebhookAction
  deployment : Deployment → WebhookAction

abbrev after : {A : Type 0} → M A → World → World
after m w = (m w).1

-- Events and deployments change only the deliveries.
module _ (P : Db → Type 0)
    (keep : (d : Db) (l : List WebhookDeliveryRow)
      → P d
      → P (record d { webhook_deliveries = l })) where
  create_delivery-Keeps : (delivery : _) → Keeps P (WebhookRepo.create_delivery delivery)
  unfolding WebhookRepo.create_delivery
  create_delivery-Keeps delivery = Keeps-checked _ _ λ d _ h. keep d _ h

  update_delivery_status-Keeps :
      (id : Uuid) (s : _) (e : _) (t : _) → Keeps P (WebhookRepo.update_delivery_status id s e t)
  unfolding WebhookRepo.update_delivery_status
  update_delivery_status-Keeps id s e t = Keeps-update _ λ d h. keep d _ h

  deliver-Keeps : (config : WebhookConfig) (event : WebhookEvent) → Keeps P (deliver config event)
  unfolding deliver launch ContainerRepo.get
  deliver-Keeps config event =
      search (keeps_rules, create_delivery-Keeps, update_delivery_status-Keeps) depth 30

  unless_panicked-Keeps :
      {A : Type 0} (o : Option (Result A)) (rest : A → M Incoming)
      → ((a : A) → Keeps P (rest a))
      → Keeps P (unless_panicked o rest)
  unfolding unless_panicked
  unless_panicked-Keeps none rest k = Keeps-pure _
  unless_panicked-Keeps (some r) rest k = search keeps_rules depth 6

  handle_incoming-Keeps :
      (hmac : HmacSha256) (from_slice : Bytes → Option PushPayload) (id : Uuid)
      (headers : HeaderMap) (raw_body : Bytes)
      → Keeps P (handle_incoming hmac from_slice id headers raw_body)
  unfolding handle_incoming WebhookRepo.get_config
  handle_incoming-Keeps hmac from_slice id headers raw_body =
      search (keeps_rules, unless_panicked-Keeps, deliver-Keeps) depth 30

  run_deployment-Keeps : (task : Deployment) → Keeps P (run_deployment task)
  unfolding run_deployment exec_command
  run_deployment-Keeps task = search (keeps_rules, update_delivery_status-Keeps) depth 20

module _ (hmac : HmacSha256) (from_slice : Bytes → Option PushPayload) where
  unfoldable pub serve : WebhookAction → World → World
  serve (create_config_request actor c req) = after (create_config actor c req)
  serve (list_configs_request actor c) = after (list_configs actor c)
  serve (get_config_request actor id) = after (get_config actor id)
  serve (update_config_request actor id req) = after (update_config actor id req)
  serve (delete_config_request actor id) = after (delete_config actor id)
  serve (list_deliveries_request actor id limit) = after (list_deliveries actor id limit)
  serve (incoming id headers raw_body) = after (handle_incoming hmac from_slice id headers raw_body)
  serve (deployment task) = after (run_deployment task)

  unfoldable pub serve_all : List WebhookAction → World → World
  serve_all [] w = w
  serve_all (a ∷ acts) w = serve_all acts (serve a w)

  serve-Valid : (a : WebhookAction) (w : World) → ValidConfigs w.db → ValidConfigs (serve a w).db
  unfolding serve
  serve-Valid (create_config_request actor c req) = (create_config-Valid actor c req).at
  serve-Valid (list_configs_request actor c) = (list_configs-Keeps _ actor c).at
  serve-Valid (get_config_request actor id) = (get_config-Keeps _ actor id).at
  serve-Valid (update_config_request actor id req) = (update_config-Valid actor id req).at
  serve-Valid (delete_config_request actor id) = (delete_config-Valid actor id).at
  serve-Valid (list_deliveries_request actor id limit) = (list_deliveries-Keeps _ actor id limit).at
  serve-Valid (incoming id headers raw_body) =
      (handle_incoming-Keeps ValidConfigs (λ d l h. h) hmac from_slice id headers raw_body).at
  serve-Valid (deployment task) = (run_deployment-Keeps ValidConfigs (λ d l h. h) task).at

  -- After any list of users' requests, inbound events and deployments, whichever calls fail, every
  -- stored configuration has a valid branch and directory, a secret of 16 to 512 bytes and a
  -- command of at most 4096 bytes, when those stored at first have.
  pub webhooks_served-Valid :
      (acts : List WebhookAction) (w : World)
      → ValidConfigs w.db
      → ValidConfigs (serve_all acts w).db
  unfolding serve_all
  webhooks_served-Valid [] w h = h
  webhooks_served-Valid (a ∷ acts) w h = webhooks_served-Valid acts (serve a w) (serve-Valid a w h)

  module _ (tag_of : Bytes → Bytes → Bytes) (laws : Laws hmac tag_of) where
    task_valid :
        (w : World) (id : Uuid) (headers : HeaderMap) (raw_body : Bytes) (task : Deployment)
        → ValidConfigs w.db
        → (handle_incoming hmac from_slice id headers raw_body w).0 ≡ ok (spawned task)
        → ValidConfig task.config
    task_valid w id headers raw_body task h e =
        elim ((handle_incoming_lem hmac tag_of laws from_slice id headers raw_body w).holds.1) [
          | inl (same, unspawned) ↦ absurd (cc (ap is_spawned e))
          | inr a ↦
              subst ValidConfig (sym (a.delivery.task_running task e).1.config_same)
                (All-find_row ValidConfig _ w.db.webhook_configs a.config h a.found)
        ]

    -- A task that is spawned after any list of actions, when the configurations stored at first
    -- are valid and the crate's HMAC behaves as documented, changes to the configured directory,
    -- which is absolute, and to no other, before it runs the configured command.
    pub spawned_command :
        (acts : List WebhookAction) (w : World) (id : Uuid) (headers : HeaderMap) (raw_body : Bytes)
        (task : Deployment)
        → ValidConfigs w.db
        → (handle_incoming hmac from_slice id headers raw_body (serve_all acts w)).0
          ≡ ok (spawned task)
        → (cd_target (deploy_command task.config)
            ≡ some (task.config.working_dir, codes " && " ++ task.config.post_pull_cmd))
          × ((rest : Bytes) × (task.config.working_dir ≡ 47 ∷ rest))
    spawned_command acts w id headers raw_body task h e =
        let dir =
          (task_valid (serve_all acts w) id headers raw_body task (webhooks_served-Valid acts w h)
            e).working_dir in
        (cd_target-deploy_command task.config dir, (dir.rest, dir.absolute))
