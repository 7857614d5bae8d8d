-- ===== src/Services/WebhookService/Inbound.antt =====
-- What the handling of an inbound request does.
use hzelmaim.Prelude.{
  ◌≡◌, ◌⊎◌, refl, false, Option, some, String, find_row, inl, inr, arith, ◌==◌, eq_iff,
}
use hzelmaim.Prelude.Bytes.{Bytes}
use hzelmaim.Api.{ok_or-some, Result, ok, err, internal}
use hzelmaim.Models.User.{Uuid}
use hzelmaim.Models.Webhook.{WebhookConfig}
use hzelmaim.World.{World, tick}
use hzelmaim.World.After.{
  After, After-pure, After-bind, After-lift_bind, After-select, After-weaken,
}
use hzelmaim.Webhooks.Hmac.{HmacSha256, Laws}
use hzelmaim.Api.Headers.{HeaderMap}
use hzelmaim.Webhooks.Provider.{WebhookEvent}
use hzelmaim.Webhooks.Github.{PushPayload}
use hzelmaim.Webhooks.Github
use hzelmaim.Webhooks.Registry
use hzelmaim.Webhooks.Registry.{GitProvider, github, forgejo}
use hzelmaim.Webhooks.Signature.{Signed, verify_iff}
use hzelmaim.Db.WebhookRepo
use hzelmaim.Db.WebhookRepo.{to_row, set_status, delivery_conflict}
use hzelmaim.Services.WebhookService.{Incoming, panicked, unless_panicked, deliver, handle_incoming}
use hzelmaim.Services.WebhookService.Outcome.{
  Quiet, quiet_then, is_spawned, Logged, NoDelivery, ticked, EventDone,
}
use hzelmaim.Services.WebhookService.Events.{deliver_lem}

-- A request that leaves a delivery behind.
pub record Accepted (tag_of : Bytes → Bytes → Bytes) (from_slice : Bytes → Option PushPayload)
    (webhook_id : Uuid) (headers : HeaderMap) (raw_body : Bytes) (w : World) (r : Result Incoming)
    (w' : World) : Type 0 where
  pub config : WebhookConfig
  pub found : find_row (λ c. c.id == webhook_id) w.db.webhook_configs ≡ some config
  pub from_github : config.provider ≡ "github"
  pub signed : Signed tag_of headers raw_body config.webhook_secret
  pub event : WebhookEvent
  pub parsed : Github.parse_event from_slice headers raw_body ≡ ok event
  pub delivery : Logged w config event r w'

Logged-before :
    (w : World) (config : WebhookConfig) (event : WebhookEvent) (r : Result Incoming) (w' : World)
    → Logged (tick w) config event r w'
    → Logged w config event r w'
Logged-before w config event r w' l = record {
  step = l.step;
  step_during = (omega (arith, l.step_during.0), l.step_during.1);
  now = l.now;
  status = l.status;
  status_early = l.status_early;
  fresh = l.fresh;
  stored = l.stored;
  task_running = λ task e.
      let (s, t) = l.task_running task e in
      (
        s,
        record {
          delivery_id = t.delivery_id;
          config_same = t.config_same;
          is_push = t.is_push;
          on_branch = t.on_branch;
          container = t.container;
          container_found = t.container_found;
          ctid = t.ctid;
        },
      );
}

get-github : (name : String) → Registry.get name ≡ some github → name ≡ "github"
unfolding Registry.get
get-github name h = ground (arith, eq_iff name "github", eq_iff name "forgejo")

module _ (hmac : HmacSha256) (tag_of : Bytes → Bytes → Bytes) (laws : Laws hmac tag_of)
    (from_slice : Bytes → Option PushPayload) (webhook_id : Uuid) (headers : HeaderMap)
    (raw_body : Bytes) (w : World) where
  abbrev pub Handled : Result Incoming → World → Type 0
  Handled r w' =
      Quiet w w'
      × (NoDelivery w r w' ⊎ Accepted tag_of from_slice webhook_id headers raw_body w r w')

  nothing : (r : Result Incoming) → is_spawned r ≡ false → Handled r (tick w)
  nothing r h = (ticked w, inl (refl, h))

  provider_lem :
      (config : WebhookConfig) (provider : GitProvider)
      → find_row (λ c. c.id == webhook_id) w.db.webhook_configs ≡ some config
      → Registry.get config.provider ≡ some provider
      → After
          (unless_panicked
            (Registry.verify hmac provider headers raw_body config.webhook_secret)
            λ _.
              unless_panicked
                (Registry.parse_event from_slice provider headers raw_body)
                λ event. deliver config event)
          (tick w)
          Handled
  unfolding unless_panicked Registry.verify Registry.parse_event
  provider_lem config forgejo found p = After-pure _ (tick w) panicked (nothing (ok panicked) refl)
  provider_lem config github found p =
      After-lift_bind (λ e. nothing (err e) refl)
        λ _ passed.
          After-lift_bind (λ e. nothing (err e) refl)
            λ event parsed.
              After-weaken Handled (tick w) _ (EventDone (tick w) config event)
                (accept event passed parsed) (deliver_lem config event (tick w))
    where
      accept :
          (event : WebhookEvent)
          → Github.verify hmac headers raw_body config.webhook_secret ≡ ok tt
          → Github.parse_event from_slice headers raw_body ≡ ok event
          → (r : Result Incoming) (w' : World) → EventDone (tick w) config event r w'
          → Handled r w'
      accept event passed parsed r w' (q, inl none_left) = (quiet_then (ticked w) q, inl none_left)
      accept event passed parsed r w' (q, inr l) = (
        quiet_then (ticked w) q,
        inr (record {
          config = config;
          found = found;
          from_github = get-github config.provider p;
          signed = (verify_iff hmac tag_of laws raw_body config.webhook_secret headers).0 passed;
          event = event;
          parsed = parsed;
          delivery = Logged-before w config event r w' l;
        }),
      )

  -- When the crate's HMAC behaves as documented, `handle_incoming` calls neither Proxmox nor SSH.
  -- It either leaves the database as it was and spawns nothing, or the request carries the HMAC
  -- of its body under the secret of the stored GitHub configuration that is asked for: then one
  -- delivery of a new id is added and nothing else, which is pending, running or skipped, and a
  -- task is spawned only when it is running and the event is a push to the configured branch, for
  -- that configuration and its container.
  pub handle_incoming_lem :
      After (handle_incoming hmac from_slice webhook_id headers raw_body) w Handled
  unfolding handle_incoming WebhookRepo.get_config
  handle_incoming_lem = After-bind _ w _ _ (
      After-select _ w _ (nothing (err internal) refl) (
        After-lift_bind (λ e. nothing (err e) refl)
          λ config found.
            After-lift_bind (λ e. nothing (err e) refl)
              λ provider known.
                provider_lem config provider (ok_or-some _ _ config found)
                  (ok_or-some _ _ provider known)))
