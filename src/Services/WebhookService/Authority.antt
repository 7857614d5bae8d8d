-- ===== src/Services/WebhookService/Authority.antt =====
-- Who may change the configuration of webhooks.
use hzelmaim.Prelude.{
  suc, ◌≡◌, refl, ap, ◌∙◌, true, not, some, [], ◌∷◌, ◌++◌, find_row, update_rows, where_rows, ◌==◌,
}
use hzelmaim.Api.{ok_or-some, ApiError, Result, ok, err, internal, ok_or, webhook_not_found}
use hzelmaim.Models.User.{Uuid, DateTime, AuthenticatedUser}
use hzelmaim.Models.Container.{has, perm_webhooks}
use hzelmaim.Models.Webhook.{WebhookConfig, CreateWebhookConfigRequest, UpdateWebhookConfigRequest}
use hzelmaim.World.{World, Db, M, ◌>>=◌, ◌>>◌, lift, tick, clock}
use hzelmaim.World.After.{
  After, After-pure, After-bind, After-lift, After-lift_bind, After-select, After-checked,
  After-update, After-utc_now, After-new_v4,
}
use hzelmaim.Db.WebhookRepo
use hzelmaim.Db.WebhookRepo.{updated, config_conflict, update_conflict}
use hzelmaim.Services.ContainerService
use hzelmaim.Services.ContainerService.Access.{
  held, Untouched, Untouched-before, ticked, require_permission_lem,
}
use hzelmaim.Services.WebhookService.{
  require_permission, create_config, update_config, delete_config,
}

permission_lem :
    (actor : AuthenticatedUser) (c : Uuid) (w : World) (Q : Result (Unit {0}) → World → Type 0)
    → ((e : ApiError) (w' : World) → Untouched w w' → Q (err e) w')
    → ((w' : World) → Untouched w w' → has (held actor c w.db) perm_webhooks ≡ true → Q (ok tt) w')
    → After (require_permission actor c perm_webhooks) w Q
unfolding require_permission ContainerService.require_permission has
permission_lem actor c w Q refused passed =
    require_permission_lem actor c perm_webhooks w Q refl refused passed

-- The actor has PERM_WEBHOOKS on the container when the request begins.
abbrev May : AuthenticatedUser → Uuid → World → Type 0
May actor container_id w = has (held actor container_id w.db) perm_webhooks ≡ true

-- The statements, whose answer is a change of the table or an error that leaves it.
module _ (Q : Result (Unit {0}) → World → Type 0) (w : World) where
  insert_lem :
      (cfg : WebhookConfig)
      → Q (err internal) (tick w)
      → Q (ok tt) (record (tick w) {
        db = record w.db { webhook_configs = w.db.webhook_configs ++ cfg ∷ [] };
      })
      → After (WebhookRepo.create_config cfg) w Q
  unfolding WebhookRepo.create_config
  insert_lem cfg h k = After-checked Q w (config_conflict cfg) _ h (λ _. k)

  change_lem :
      (id : Uuid) (req : UpdateWebhookConfigRequest)
      → Q (err internal) (tick (tick w))
      → Q (ok tt) (record (tick (tick w)) {
        db = record w.db {
          webhook_configs =
              update_rows (λ c. c.id == id) (updated req (clock w)) w.db.webhook_configs;
        };
      })
      → After (WebhookRepo.update_config id req) w Q
  unfolding WebhookRepo.update_config
  change_lem id req h k =
      After-bind Q w _ _
        (After-utc_now w _ (After-checked Q (tick w) (update_conflict id req) _ h (λ _. k)))

-- Nothing is changed, or a configuration is added to the container.
pub data Created (actor : AuthenticatedUser) (container_id : Uuid) (w w' : World) : Type 0 where
  unchanged : w'.db ≡ w.db → Created actor container_id w w'
  created :
      (cfg : WebhookConfig)
      → May actor container_id w
      → cfg.container_id ≡ container_id
      → w'.db ≡ record w.db { webhook_configs = w.db.webhook_configs ++ cfg ∷ [] }
      → Created actor container_id w w'

-- The row that is added to the tables after the checks is added to the tables before them.
abbrev added : WebhookConfig → Db → Db
added cfg d = record d { webhook_configs = d.webhook_configs ++ cfg ∷ [] }

abbrev drawn : Uuid → CreateWebhookConfigRequest → World → WebhookConfig
drawn c req w = record {
  id = w.env.uuid (suc w.steps);
  container_id = c;
  provider = req.provider;
  webhook_secret = req.webhook_secret;
  branch = req.branch;
  working_dir = req.working_dir;
  post_pull_cmd = req.post_pull_cmd;
  created_at = clock w;
  updated_at = clock w;
}

create_lem :
    (actor : AuthenticatedUser) (c : Uuid) (req : CreateWebhookConfigRequest) (w : World)
    → After (create_config actor c req) w λ _ w'. Created actor c w w'
unfolding create_config
create_lem actor c req w = After-bind _ w _ _ (
    permission_lem actor c w _ (λ e w' u. unchanged u.db)
      λ w' u may.
        After-lift_bind (λ e. unchanged u.db)
          λ _ valid. After-bind _ _ _ _ (
            After-utc_now _ _ (
              After-bind _ _ _ _ (
                After-new_v4 _ _ (
                  After-bind _ _ _ _ (
                    insert_lem _ _ (drawn c req w') (unchanged u.db) (
                      After-pure _ _ _ (
                        created (drawn c req w') may refl (ap (added (drawn c req w')) u.db)))))))))

-- Nothing is changed, or the rows of the configuration are, for an actor with PERM_WEBHOOKS on its
-- container.
pub data Changed (change : Uuid → Db → Db → Type 0) (actor : AuthenticatedUser) (webhook_id : Uuid)
    (w w' : World) : Type 0 where
  unchanged : w'.db ≡ w.db → Changed change actor webhook_id w w'
  changed :
      (cfg : WebhookConfig)
      → find_row (λ c. c.id == webhook_id) w.db.webhook_configs ≡ some cfg
      → May actor cfg.container_id w
      → change webhook_id w.db w'.db
      → Changed change actor webhook_id w w'

abbrev pub IsUpdate : UpdateWebhookConfigRequest → Uuid → Db → Db → Type 0
IsUpdate req id d d' =
    (now : DateTime) × (d' ≡ record d {
      webhook_configs = update_rows (λ c. c.id == id) (updated req now) d.webhook_configs;
    })

abbrev pub IsDelete : Uuid → Db → Db → Type 0
IsDelete id d d' = d' ≡ record d {
  webhook_configs = where_rows (λ c. not (c.id == id)) d.webhook_configs;
  webhook_deliveries = where_rows (λ r. not (r.webhook_id == id)) d.webhook_deliveries;
}

-- A configuration that is found, and that the actor may manage.
module _ {A : Type 0} (change : Uuid → Db → Db → Type 0) (actor : AuthenticatedUser) (id : Uuid)
    (w : World) (rest : WebhookConfig → M A) where
  guarded_lem :
      ((cfg : WebhookConfig) (w' : World)
        → Untouched w w'
        → find_row (λ c. c.id == id) w.db.webhook_configs ≡ some cfg
        → May actor cfg.container_id w
        → After (rest cfg) w' (λ _ v. Changed change actor id w v))
      → After
          (do
            found ← WebhookRepo.get_config id
            cfg ← lift (ok_or found webhook_not_found)
            require_permission actor cfg.container_id perm_webhooks
            rest cfg)
          w
          λ _ v. Changed change actor id w v
  unfolding WebhookRepo.get_config
  guarded_lem k = After-bind _ w _ _ (
      After-select _ w _ (unchanged refl) (
        After-lift_bind (λ e. unchanged refl)
          λ cfg found. After-bind _ _ _ _ (
            permission_lem actor cfg.container_id (tick w) _ (λ e w' u. unchanged u.db)
              λ w' u may.
                k cfg w' (Untouched-before w (tick w) w' (ticked w) u) (ok_or-some _ _ cfg found)
                  may)))

update_lem :
    (actor : AuthenticatedUser) (id : Uuid) (req : UpdateWebhookConfigRequest) (w : World)
    → After (update_config actor id req) w λ _ w'. Changed (IsUpdate req) actor id w w'
unfolding update_config WebhookRepo.get_config
update_lem actor id req w = guarded_lem (IsUpdate req) actor id w _ λ cfg w' u found may.
    let now = clock w' in
    let stored : (v : World) → v.db ≡ update_db now w'.db → Changed (IsUpdate req) actor id w v =
      λ v e. changed cfg found may (now, e ∙ ap (update_db now) u.db) in
    After-lift_bind (λ e. unchanged u.db)
      λ _ valid. After-bind _ _ _ _ (
        change_lem _ w' id req (unchanged u.db) (
          After-bind _ _ _ _ (
            After-select _ _ _ (stored _ refl)
              (After-lift _ _ _ (λ _ _. stored _ refl) (λ _ _. stored _ refl)))))
  where
    update_db : DateTime → Db → Db
    update_db now d = record d {
      webhook_configs = update_rows (λ c. c.id == id) (updated req now) d.webhook_configs;
    }

delete_lem :
    (actor : AuthenticatedUser) (id : Uuid) (w : World)
    → After (delete_config actor id) w λ _ w'. Changed IsDelete actor id w w'
unfolding delete_config WebhookRepo.delete_config
delete_lem actor id w = guarded_lem IsDelete actor id w _ λ cfg w' u found may.
    After-update _ w' _ (unchanged u.db) (changed cfg found may (ap delete_db u.db))
  where
    delete_db : Db → Db
    delete_db d = record d {
      webhook_configs = where_rows (λ c. not (c.id == id)) d.webhook_configs;
      webhook_deliveries = where_rows (λ r. not (r.webhook_id == id)) d.webhook_deliveries;
    }

-- Creating, updating and deleting a configuration either leaves the database as it was or is the
-- work of an actor who has PERM_WEBHOOKS on the container of the configuration. Then one row of
-- that container is added, or the given fields of the rows of this id are set, or its rows and
-- their deliveries are removed, and nothing else.
pub config_changes_lem :
    (actor : AuthenticatedUser) (id : Uuid) (w : World)
    → ((req : CreateWebhookConfigRequest)
        → After (create_config actor id req) w λ _ w'. Created actor id w w')
      × ((req : UpdateWebhookConfigRequest)
          → After (update_config actor id req) w λ _ w'. Changed (IsUpdate req) actor id w w')
      × After (delete_config actor id) w (λ _ w'. Changed IsDelete actor id w w')
config_changes_lem actor id w =
    (λ req. create_lem actor id req w, λ req. update_lem actor id req w, delete_lem actor id w)
