-- ===== src/Webhooks/Registry.antt =====
-- The registry of providers, and the call of a provider through it (backend/src/webhooks/registry.rs,
-- forgejo.rs). `none` is a panic: the methods of the Forgejo provider are `unimplemented!`.
use hzelmaim.Prelude.{Option, none, some, String, str_eq, if◌then◌else◌}
use hzelmaim.Prelude.Bytes.{Bytes}
use hzelmaim.Api.{Result}
use hzelmaim.Webhooks.Hmac.{HmacSha256}
use hzelmaim.Api.Headers.{HeaderMap}
use hzelmaim.Webhooks.Provider.{WebhookEvent}
use hzelmaim.Webhooks.Github.{PushPayload}
use hzelmaim.Webhooks.Github

pub data GitProvider : Type 0 where
  github forgejo : GitProvider

unfoldable pub get : String → Option GitProvider
get name =
    if str_eq name "github"
    then some github
    else if str_eq name "forgejo"
    then some forgejo
    else none

unfoldable pub verify :
    HmacSha256 → GitProvider → HeaderMap → Bytes → Bytes → Option (Result (Unit {0}))
verify hmac github headers raw_body secret = some (Github.verify hmac headers raw_body secret)
verify hmac forgejo headers raw_body secret = none

unfoldable pub parse_event :
    (Bytes → Option PushPayload) → GitProvider → HeaderMap → Bytes → Option (Result WebhookEvent)
parse_event from_slice github headers raw_body =
    some (Github.parse_event from_slice headers raw_body)
parse_event from_slice forgejo headers raw_body = none
