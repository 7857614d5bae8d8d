-- ===== src/Examples/Webhooks.antt =====
-- Webhooks at sample values. The sample HMAC of a body is the key followed by the body.
use hzelmaim.Prelude.{
  ◌≡◌, ◌↔◌, ◌⊎◌, refl, true, Option, none, some, List, [], ◌∷◌, ◌++◌, str_eq, if◌then◌else◌, arith,
}
use hzelmaim.Prelude.Bytes.{Bytes, bytes_eq, bytes_eq_iff, lower_hex, strip_prefix}
use hzelmaim.Prelude.Text.{codes}
use hzelmaim.Prelude.Lossy.{from_utf8_lossy, lossy_from}
use hzelmaim.Api.{ApiError, ok, err}
use hzelmaim.Models.DeliveryStatus.{DeliveryStatus}
use hzelmaim.Models.Ssh.{ChannelMsg, data_msg, exit_status, eof}
use hzelmaim.Models.Webhook.{WebhookConfig, CreateWebhookConfigRequest, UpdateWebhookConfigRequest}
use hzelmaim.World.{World, Effect, ◌>>=◌, pure, lift, select, execute, update, utc_now, new_v4}
use hzelmaim.World.After.{After}
use hzelmaim.Webhooks.Hmac.{HmacSha256, Laws, decode_hex, from_str_radix, verify_hmac_sha256}
use hzelmaim.Api.Headers.{HeaderMap}
use hzelmaim.Webhooks.Github.{PushPayload}
use hzelmaim.Webhooks.Github
use hzelmaim.Webhooks.Signature.{Signed, verify_iff, decode_hex-lower_hex}
use hzelmaim.Models.Container.{has}
use hzelmaim.Webhooks.Provider.{as_str}
use hzelmaim.Webhooks.Registry
use hzelmaim.Webhooks.Github.{short_branch}
use hzelmaim.Db.ContainerRepo
use hzelmaim.Db.WebhookRepo
use hzelmaim.Db.WebhookRepo.{to_row, set_status}
use hzelmaim.Services.TerminalService.{exec_command}
use hzelmaim.Services.TerminalService.Output.{
  exec_command_lem, printed, complained, last_status, before_eof,
}
use hzelmaim.Services.WebhookService.{
  Deployment, spawned, unless_panicked, deliver, launch, list_configs, require_permission,
  validate_branch, handle_incoming, deploy_command, create_config, update_config, delete_config,
  run_deployment,
}
use hzelmaim.Services.WebhookService.Validation.{IsBranch, validate_branch_iff}
use hzelmaim.Services.WebhookService.Configs.{ValidConfigs, IsSecret}
use hzelmaim.Services.WebhookService.Inbound.{Handled, handle_incoming_lem}
use hzelmaim.Services.WebhookService.Deployments.{cd_target, Finished, run_deployment_lem}
use hzelmaim.Services.WebhookService.Requests.{
  WebhookAction, list_configs_request, serve, serve_all, webhooks_served-Valid, spawned_command,
}
use hzelmaim.Services.WebhookService.Authority.{
  Created, Changed, IsUpdate, IsDelete, config_changes_lem,
}
use hzelmaim.Examples.{sample_db, sample_world, alice}

abbrev sample_tag : Bytes → Bytes → Bytes
sample_tag key body = key ++ body

abbrev sample_hmac : HmacSha256
sample_hmac = record {
  Mac = Bytes;
  new_from_slice = λ key. some key;
  update = λ mac body. mac ++ body;
  verify_slice = λ mac tag. bytes_eq tag mac;
}

same_mac : (a b : Bytes) → Option.some a ≡ some b → a ≡ b
same_mac a b h = cc

sample_hmac_laws : Laws sample_hmac sample_tag
sample_hmac_laws = record {
  verify_iff = λ key body tag mac e. same key body tag mac (same_mac key mac e);
  any_key = λ key. (key, refl);
}
  where
    same :
        (key body tag mac : Bytes)
        → key ≡ mac
        → (bytes_eq tag (mac ++ body) ≡ true) ↔ (tag ≡ key ++ body)
    same key body tag mac e = rw (← e) (bytes_eq_iff tag (key ++ body))

abbrev secret : Bytes
secret = codes "0123456789abcdef"

abbrev signed_push : HeaderMap
signed_push name =
    if str_eq name "x-hub-signature-256"
    then some (codes "sha256=" ++ codes "30313233343536373839616263646566")
    else if str_eq name "x-github-event"
    then some (codes "push")
    else none

abbrev main_pushed : Bytes → Option PushPayload
main_pushed body = some (record { git_ref = codes "refs/heads/main"; head_commit = none })

abbrev hook : WebhookConfig
hook = record {
  id = 50;
  container_id = 20;
  provider = "github";
  webhook_secret = secret;
  branch = codes "main";
  working_dir = codes "/srv";
  post_pull_cmd = codes "git pull";
  created_at = 0;
  updated_at = 0;
}

abbrev hooked : World
hooked = record sample_world { db = record sample_db { webhook_configs = hook ∷ [] } }

validate_branch_iff_example : (validate_branch (codes "main") ≡ ok tt) ↔ IsBranch (codes "main")
validate_branch_iff_example = validate_branch_iff (codes "main")

branch_accepted : validate_branch (codes "feature/x-1") ≡ ok tt
unfolding validate_branch
branch_accepted = refl

verify_iff_example :
    (Github.verify sample_hmac signed_push [] secret ≡ ok tt)
    ↔ Signed sample_tag signed_push [] secret
verify_iff_example = verify_iff sample_hmac sample_tag sample_hmac_laws [] secret signed_push

decode_hex-lower_hex_example : decode_hex (lower_hex (0 ∷ 171 ∷ [])) ≡ some (0 ∷ 171 ∷ [])
decode_hex-lower_hex_example = decode_hex-lower_hex (0 ∷ 171 ∷ []) (omega arith)

plus_sign : decode_hex (codes "+f") ≡ some (15 ∷ [])
unfolding decode_hex from_str_radix
plus_sign = refl

handle_incoming_lem_example :
    After
      (handle_incoming sample_hmac main_pushed 50 signed_push [])
      hooked
      (Handled sample_hmac sample_tag sample_hmac_laws main_pushed 50 signed_push [] hooked)
handle_incoming_lem_example =
    handle_incoming_lem sample_hmac sample_tag sample_hmac_laws main_pushed 50 signed_push [] hooked

abbrev task : Deployment
task = record {
  delivery = record {
    id = 1003;
    webhook_id = 50;
    delivery_id = [];
    provider = "github";
    event_type = "push";
    branch = codes "main";
    head_commit_id = [];
    status = DeliveryStatus.pending;
    error_message = none;
    received_at = 4;
    completed_at = none;
  };
  config = hook;
  ctid = 900;
}

-- The users' requests and events that come first.
abbrev earlier : List WebhookAction
earlier = list_configs_request alice 20 ∷ []

spawned_run :
    (handle_incoming sample_hmac main_pushed 50 signed_push []
      (serve_all sample_hmac main_pushed earlier hooked)).0
    ≡ ok (spawned task)
unfolding serve_all serve list_configs require_permission handle_incoming unless_panicked deliver
    launch WebhookRepo.get_config WebhookRepo.list_configs WebhookRepo.create_delivery
    WebhookRepo.update_delivery_status ContainerRepo.get ContainerRepo.get_permissions Registry.get
    Registry.verify Registry.parse_event Github.verify Github.parse_event short_branch
    verify_hmac_sha256 decode_hex from_str_radix strip_prefix has as_str to_row set_status ◌>>=◌
    pure lift select execute update utc_now new_v4
spawned_run = refl

short_secret : IsSecret secret
short_secret = record { long = omega arith; short = omega arith }

hook_valid : ValidConfigs hooked.db
hook_valid = (
  record {
    branch = record { not_empty = omega arith; short = omega arith; bytes = ground arith };
    working_dir = record {
      short = omega arith;
      unquoted = ground arith;
      rest = codes "srv";
      absolute = refl;
    };
    secret = short_secret;
    command_short = omega arith;
  },
  tt,
)

webhooks_served-Valid_example : ValidConfigs (serve_all sample_hmac main_pushed earlier hooked).db
webhooks_served-Valid_example =
    webhooks_served-Valid sample_hmac main_pushed earlier hooked hook_valid

spawned_command_example :
    (cd_target (deploy_command hook) ≡ some (codes "/srv", codes " && git pull"))
    × ((rest : Bytes) × (codes "/srv" ≡ 47 ∷ rest))
spawned_command_example =
    spawned_command sample_hmac main_pushed sample_tag sample_hmac_laws earlier hooked 50
      signed_push [] task hook_valid spawned_run

run_deployment_lem_example : After (run_deployment task) hooked λ r w'.
    (r ≡ ok tt)
    × (w'.trace ≡ Effect.exec_deployment 900 (deploy_command hook) ∷ [])
    × ((w'.db ≡ hooked.db) ⊎ Finished task hooked w')
run_deployment_lem_example = run_deployment_lem task hooked

config_changes_lem_example :
    ((req : CreateWebhookConfigRequest)
      → After (create_config alice 50 req) hooked λ _ w'. Created alice 50 hooked w')
    × ((req : UpdateWebhookConfigRequest)
        → After
            (update_config alice 50 req)
            hooked
            λ _ w'. Changed (IsUpdate req) alice 50 hooked w')
    × After (delete_config alice 50) hooked (λ _ w'. Changed IsDelete alice 50 hooked w')
config_changes_lem_example = config_changes_lem alice 50 hooked

-- A status that arrives after EOF is not kept, and a byte that is not UTF-8 is replaced.
abbrev late_status : List ChannelMsg
late_status = data_msg (0xff ∷ codes "no") ∷ eof ∷ exit_status 1 ∷ []

abbrev answering : World
answering = record sample_world { env = record sample_world.env { channel = λ n. late_status } }

lossy_runs :
    from_utf8_lossy (0x61 ∷ 0xf0 ∷ 0x90 ∷ 0x80 ∷ 0x62 ∷ 0xc3 ∷ 0xa9 ∷ 0xe2 ∷ [])
    ≡ 0x61 ∷ 0xef ∷ 0xbf ∷ 0xbd ∷ 0x62 ∷ 0xc3 ∷ 0xa9 ∷ 0xef ∷ 0xbf ∷ 0xbd ∷ []
unfolding from_utf8_lossy lossy_from
lossy_runs = refl

exec_command_lem_example :
    ((e : ApiError) → none ≡ some e → (exec_command 900 [] answering).0 ≡ err e)
    × (answering.env.proxmox_fault answering.steps ≡ none
        → (exec_command 900 [] answering).0
          ≡ ok (record { stdout = 0xef ∷ 0xbf ∷ 0xbd ∷ codes "no"; stderr = []; exit_code = 0 }))
unfolding printed complained last_status before_eof from_utf8_lossy lossy_from
exec_command_lem_example = exec_command_lem 900 [] answering
