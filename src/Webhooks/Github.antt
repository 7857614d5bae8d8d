-- ===== src/Webhooks/Github.antt =====
-- The GitHub provider (backend/src/webhooks/github.rs). `serde_json::from_slice` is a parameter.
use hzelmaim.Prelude.{Option, none, some, [], if◌then◌else◌}
use hzelmaim.Prelude.Bytes.{Bytes, bytes_eq, strip_prefix}
use hzelmaim.Prelude.Text.{codes}
use hzelmaim.Api.{Result, ok, err, bad_request, webhook_signature_invalid}
use hzelmaim.Webhooks.Hmac.{HmacSha256, verify_hmac_sha256}
use hzelmaim.Api.Headers.{HeaderMap}
use hzelmaim.Webhooks.Provider.{WebhookEvent, push, ping}

-- The id of `head_commit`, when there is one.
pub record PushPayload : Type 0 where
  pub git_ref : Bytes
  pub head_commit : Option Bytes

abbrev pub check_signature : (hmac : HmacSha256) → Bytes → Bytes → Option Bytes → Result (Unit {0})
check_signature hmac secret raw_body none = err webhook_signature_invalid
check_signature hmac secret raw_body (some sig) = verify_hmac_sha256 hmac secret raw_body sig

unfoldable pub verify : HmacSha256 → HeaderMap → Bytes → Bytes → Result (Unit {0})
verify hmac headers raw_body secret =
    check_signature hmac secret raw_body (headers "x-hub-signature-256")

-- `unwrap_or("")`, `unwrap_or_default()`.
abbrev pub or_empty : Option Bytes → Bytes
or_empty none = []
or_empty (some s) = s

abbrev or_whole : Bytes → Option Bytes → Bytes
or_whole s none = s
or_whole s (some rest) = rest

-- The short branch name.
unfoldable pub short_branch : Bytes → Bytes
short_branch git_ref = or_whole git_ref (strip_prefix (codes "refs/heads/") git_ref)

abbrev push_event : Bytes → Option PushPayload → Result WebhookEvent
push_event delivery_id none = err bad_request
push_event delivery_id (some payload) = ok (record {
  event_type = push;
  delivery_id = delivery_id;
  branch = short_branch payload.git_ref;
  head_commit_id = or_empty payload.head_commit;
})

abbrev event_of : (Bytes → Option PushPayload) → Bytes → Bytes → Option Bytes → Result WebhookEvent
event_of from_slice raw_body delivery_id none = err bad_request
event_of from_slice raw_body delivery_id (some event_type_str) =
    if bytes_eq event_type_str (codes "ping")
    then ok
        (record { event_type = ping; delivery_id = delivery_id; branch = []; head_commit_id = [] })
    else if bytes_eq event_type_str (codes "push")
    then push_event delivery_id (from_slice raw_body)
    else err bad_request

unfoldable pub parse_event : (Bytes → Option PushPayload) → HeaderMap → Bytes → Result WebhookEvent
parse_event from_slice headers raw_body =
    event_of from_slice raw_body (or_empty (headers "x-github-delivery")) (headers "x-github-event")
