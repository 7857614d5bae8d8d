-- ===== src/Services/WebhookService/Configs.antt =====
-- The stored configurations are valid: lemmas for each operation that stores one.
use hzelmaim.Prelude.{
  ℕ, ◌≤◌, ◌≡◌, Bool, true, false, not, Option, none, some, length, All, All-snoc, All-update_rows,
  All-where_rows, arith, ◌==◌, ltb, if◌then◌else◌,
}
use hzelmaim.Prelude.Bytes.{Bytes}
use hzelmaim.Api.{Result, ok}
use hzelmaim.Models.User.{Uuid, DateTime, AuthenticatedUser}
use hzelmaim.Models.Webhook.{WebhookConfig, CreateWebhookConfigRequest, UpdateWebhookConfigRequest}
use hzelmaim.World.{Db}
use hzelmaim.World.Keeps.{
  Keeps, Keeps-bind, Keeps-lift_bind, Keeps-utc_now, Keeps-checked, Keeps-update, keeps_rules,
}
use hzelmaim.Db.ContainerRepo
use hzelmaim.Db.WebhookRepo
use hzelmaim.Db.WebhookRepo.{updated, set_or, config_conflict, update_conflict, delivery_conflict}
use hzelmaim.Services.WebhookService.{
  require_permission, validate_create, validate_update, create_config, update_config, get_config,
  delete_config, list_configs, list_deliveries, bad_secret, if_given, validate_branch,
  validate_working_dir, reject_if,
}
use hzelmaim.Services.WebhookService.Validation.{
  IsBranch, IsWorkingDir, validate_branch-IsBranch, validate_working_dir-IsWorkingDir,
  reject_if-passed, and_then-passed,
}

pub record IsSecret (s : Bytes) : Type 0 where
  pub long : 16 ≤ length s
  pub short : length s ≤ 512

pub record ValidConfig (c : WebhookConfig) : Type 0 where
  pub branch : IsBranch c.branch
  pub working_dir : IsWorkingDir c.working_dir
  pub secret : IsSecret c.webhook_secret
  pub command_short : length c.post_pull_cmd ≤ 4096

abbrev pub ValidConfigs : Db → Type 0
ValidConfigs d = All ValidConfig d.webhook_configs

good_secret : (s : Bytes) → bad_secret s ≡ false → IsSecret s
good_secret s h = record { long = ground arith; short = ground arith }

not_longer : (n m : ℕ) → ltb n m ≡ false → m ≤ n
not_longer n m h = ground arith

module _ (req : CreateWebhookConfigRequest) (h : validate_create req ≡ ok tt) where
  pub create_valid :
      (id container_id : Uuid) (now : DateTime)
      → ValidConfig (record {
        id = id;
        container_id = container_id;
        provider = req.provider;
        webhook_secret = req.webhook_secret;
        branch = req.branch;
        working_dir = req.working_dir;
        post_pull_cmd = req.post_pull_cmd;
        created_at = now;
        updated_at = now;
      })
  unfolding validate_create
  create_valid id container_id now =
      let (a, h1) = and_then-passed (validate_branch req.branch) _ h in
      let (b, h2) = and_then-passed (validate_working_dir req.working_dir) _ h1 in
      let (c, h3) = reject_if-passed (ltb 4096 (length req.post_pull_cmd)) _ h2 in
      let (d, h4) = reject_if-passed (bad_secret req.webhook_secret) _ h3 in
      record {
        branch = validate_branch-IsBranch req.branch a;
        working_dir = validate_working_dir-IsWorkingDir req.working_dir b;
        secret = good_secret req.webhook_secret d;
        command_short = not_longer 4096 (length req.post_pull_cmd) c;
      }

-- A given field that passes its check, or the old one.
set_or-valid :
    (P : Bytes → Type 0) (check : Bytes → Result (Unit {0}))
    → ((s : Bytes) → check s ≡ ok tt → P s)
    → (o : Option Bytes) (old : Bytes) → if_given o check ≡ ok tt
    → P old
    → P (set_or o old)
set_or-valid P check sound none old h p = p
set_or-valid P check sound (some s) old h p = sound s h

pub updated_valid :
    (req : UpdateWebhookConfigRequest) (now : DateTime) (c : WebhookConfig)
    → validate_update req ≡ ok tt
    → ValidConfig c
    → ValidConfig (updated req now c)
unfolding validate_update updated
updated_valid req now c h v =
    let (given, h0) = reject_if-passed _ _ h in
    let (a, h1) = and_then-passed (if_given req.branch validate_branch) _ h0 in
    let (b, h2) = and_then-passed (if_given req.working_dir validate_working_dir) _ h1 in
    let (s, h3) =
      and_then-passed (if_given req.webhook_secret (λ s. reject_if (bad_secret s) (ok tt))) _ h2 in
    record {
      branch =
          set_or-valid IsBranch validate_branch validate_branch-IsBranch req.branch _ a v.branch;
      working_dir =
          set_or-valid IsWorkingDir validate_working_dir validate_working_dir-IsWorkingDir
            req.working_dir _ b v.working_dir;
      secret =
          set_or-valid IsSecret _ (λ t e. good_secret t (reject_if-passed (bad_secret t) _ e).0)
            req.webhook_secret _ s v.secret;
      command_short =
          set_or-valid (λ t. length t ≤ 4096) _
            (λ t e. not_longer 4096 (length t) (reject_if-passed (ltb 4096 (length t)) _ e).0)
            req.post_pull_cmd _ h3 v.command_short;
    }

create-Valid :
    (cfg : WebhookConfig) → ValidConfig cfg → Keeps ValidConfigs (WebhookRepo.create_config cfg)
unfolding WebhookRepo.create_config
create-Valid cfg v =
    Keeps-checked (config_conflict cfg) _ λ d _ h. All-snoc ValidConfig d.webhook_configs cfg h v

update-Valid :
    (id : Uuid) (req : UpdateWebhookConfigRequest)
    → validate_update req ≡ ok tt
    → Keeps ValidConfigs (WebhookRepo.update_config id req)
unfolding WebhookRepo.update_config
update-Valid id req passed = Keeps-bind _ _ Keeps-utc_now λ now.
    Keeps-checked (update_conflict id req) _ λ d _ h.
      All-update_rows ValidConfig ValidConfig (λ c. c.id == id) (updated req now) d.webhook_configs
        (λ c v. choose (c.id == id) c (updated_valid req now c passed v) v) h
  where
    choose :
        {f : WebhookConfig} (b : Bool) (c : WebhookConfig)
        → ValidConfig f
        → ValidConfig c
        → ValidConfig (if b then f else c)
    choose true c p q = p
    choose false c p q = q

delete-Valid : (id : Uuid) → Keeps ValidConfigs (WebhookRepo.delete_config id)
unfolding WebhookRepo.delete_config
delete-Valid id =
    Keeps-update _ λ d h. All-where_rows ValidConfig (λ c. not (c.id == id)) d.webhook_configs h

pub require_permission-Keeps :
    (P : Db → Type 0) (actor : AuthenticatedUser) (c : Uuid) (flag : ℕ)
    → Keeps P (require_permission actor c flag)
unfolding require_permission ContainerRepo.get_permissions
require_permission-Keeps P actor c flag = search keeps_rules depth 12

pub create_config-Valid :
    (actor : AuthenticatedUser) (c : Uuid) (req : CreateWebhookConfigRequest)
    → Keeps ValidConfigs (create_config actor c req)
unfolding create_config
create_config-Valid actor c req = Keeps-bind _ _ (require_permission-Keeps _ actor c _) λ _.
    Keeps-lift_bind (validate_create req) _
      λ _ passed. search (keeps_rules, create-Valid, create_valid req passed) depth 12

pub update_config-Valid :
    (actor : AuthenticatedUser) (id : Uuid) (req : UpdateWebhookConfigRequest)
    → Keeps ValidConfigs (update_config actor id req)
unfolding update_config WebhookRepo.get_config
update_config-Valid actor id req = Keeps-bind _ _ (search keeps_rules depth 12) λ _.
    Keeps-bind _ _ (search keeps_rules depth 12) λ _.
      Keeps-bind _ _ (require_permission-Keeps _ actor _ _) λ _.
        Keeps-lift_bind (validate_update req) _
          λ _ passed. Keeps-bind _ _ (update-Valid id req passed) λ _. search keeps_rules depth 12

pub delete_config-Valid :
    (actor : AuthenticatedUser) (id : Uuid) → Keeps ValidConfigs (delete_config actor id)
unfolding delete_config WebhookRepo.get_config
delete_config-Valid actor id = search (keeps_rules, require_permission-Keeps, delete-Valid) depth 20

-- The operations that only read keep every property.
module _ (P : Db → Type 0) (actor : AuthenticatedUser) (id : Uuid) where
  pub list_configs-Keeps : Keeps P (list_configs actor id)
  unfolding list_configs WebhookRepo.list_configs
  list_configs-Keeps = search (keeps_rules, require_permission-Keeps) depth 20

  pub get_config-Keeps : Keeps P (get_config actor id)
  unfolding get_config WebhookRepo.get_config
  get_config-Keeps = search (keeps_rules, require_permission-Keeps) depth 20

  pub list_deliveries-Keeps : (limit : ℕ) → Keeps P (list_deliveries actor id limit)
  unfolding list_deliveries WebhookRepo.list_deliveries WebhookRepo.get_config
  list_deliveries-Keeps limit = search (keeps_rules, require_permission-Keeps) depth 20
