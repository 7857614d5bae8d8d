-- ===== src/World.antt =====
-- The state that a request handler runs against, and the monad of handlers. A `.await?` on a
-- repository or on Proxmox is one interaction: the environment decides whether it fails, the
-- count of interactions goes up, and a call of Proxmox or of SSH is written to the trace.
-- Requests run one after another: what other requests do between two awaits is not modelled.
pub mod After
pub mod Keeps
use hzelmaim.Prelude.{ℕ, suc, ◌+◌, Bool, Option, none, some, List, ◌∷◌, if◌then◌else◌}
use hzelmaim.Api.{ApiError, Result, ok, err, internal}
use hzelmaim.Models.User.{Uuid, DateTime, UserRecord}
use hzelmaim.Models.Container.{ContainerRecord, ContainerOwnership, ContainerInvitation}
use hzelmaim.Models.Network.{PrivateNetwork, NetworkMembership, Ipv4Addr, BridgeName}
use hzelmaim.Models.Proxmox.{CreateContainerRequest, ContainerRuntimeStatus}
use hzelmaim.Models.Audit.{AuditLogRecord}
use hzelmaim.Prelude.Bytes.{Bytes}
use hzelmaim.Models.Ssh.{ChannelMsg}
use hzelmaim.Models.Webhook.{WebhookConfig, WebhookDeliveryRow}
use hzelmaim.Models.Oauth.{OauthApplication, OauthAuthorizationCode, OauthRefreshToken}
use hzelmaim.Models.Session.{SessionRecord, ApiTokenRecord}

-- What the n-th interaction meets.
pub record Env : Type 0 where
  -- The database call fails.
  pub db_fault : ℕ → Bool
  -- The time that has passed without sleeping, and `Uuid::new_v4()`.
  pub time : ℕ → DateTime
  pub uuid : ℕ → Uuid
  -- The Proxmox call or the SSH command fails with this error.
  pub proxmox_fault : ℕ → Option ApiError
  pub proxmox_ctid : ℕ → ℕ
  pub proxmox_status : ℕ → ContainerRuntimeStatus
  -- The messages of the SSH channel on which a command runs.
  pub channel : ℕ → List ChannelMsg

-- The tables, each a list of rows in order of insertion, and the sequence `bridge_id_seq`.
pub record Db : Type 0 where
  pub users : List UserRecord
  pub containers : List ContainerRecord
  pub ownerships : List ContainerOwnership
  pub container_invitations : List ContainerInvitation
  pub networks : List PrivateNetwork
  pub memberships : List NetworkMembership
  pub bridge_id_seq : ℕ
  pub audit_logs : List AuditLogRecord
  pub webhook_configs : List WebhookConfig
  pub webhook_deliveries : List WebhookDeliveryRow
  pub sessions : List SessionRecord
  pub api_tokens : List ApiTokenRecord
  pub oauth_applications : List OauthApplication
  pub oauth_authorization_codes : List OauthAuthorizationCode
  pub oauth_refresh_tokens : List OauthRefreshToken

-- A call that leaves the process.
pub data Effect : Type 0 where
  create_container : CreateContainerRequest → Effect
  start_container stop_container restart_container container_status : ℕ → Effect
  create_bridge : ℕ → Effect
  delete_bridge : BridgeName → Effect
  -- ctid, slot, bridge, address and prefix length
  attach_container_nic : ℕ → ℕ → BridgeName → Ipv4Addr → ℕ → Effect
  detach_container_nic : ℕ → ℕ → Effect
  -- The command line is left out: ctid only.
  exec_command : ℕ → Effect
  -- A webhook's deployment: ctid and command line.
  exec_deployment : ℕ → Bytes → Effect

pub record World : Type 0 where
  pub env : Env
  pub steps : ℕ
  pub db : Db
  -- The milliseconds that the handlers have asked to sleep.
  pub slept : ℕ
  -- The calls made so far, the latest first.
  pub trace : List Effect

abbrev pub M : Type 0 → Type 0
M A = World → Result A × World

abbrev pub continue : {A B : Type 0} → (A → M B) → Result A → M B
continue f (ok a) w = f a w
continue f (err e) w = (err e, w)

infixl 10 ◌>>=◌ ◌>>◌
unfoldable pub ◌>>=◌ : {A B : Type 0} → M A → (A → M B) → M B
◌>>=◌ m f w = let (r, w') = m w in continue f r w'

abbrev pub ◌>>◌ : {A B : Type 0} → M A → M B → M B
m >> k = m >>= λ _. k

unfoldable pub pure : {A : Type 0} → A → M A
pure a w = (ok a, w)

unfoldable pub lift : {A : Type 0} → Result A → M A
lift r w = (r, w)

-- Runs a call and hands its error over as a value, as `if let Err(e) = …` does.
unfoldable pub attempt : {A : Type 0} → M A → M (Result A)
attempt m w = let (r, w') = m w in (ok r, w')

-- `match r { Ok(a) => …, Err(e) => … }`.
unfoldable pub match_result : {A B : Type 0} → Result A → (A → M B) → (ApiError → M B) → M B
match_result (ok a) f g = f a
match_result (err e) f g = g e

abbrev pub tick : World → World
tick w = record w { steps = suc w.steps }

-- A SELECT.
unfoldable pub select : {A : Type 0} → (Db → A) → M A
select f w = if w.env.db_fault w.steps then (err internal, tick w) else (ok (f w.db), tick w)

-- An INSERT, UPDATE or DELETE, or a transaction of these; `none` is a violated constraint.
abbrev commit : Option Db → World → Result (Unit {0}) × World
commit none w = (err internal, w)
commit (some d) w = (ok tt, record w { db = d })

unfoldable pub execute : (Db → Option Db) → M (Unit {0})
execute f w = if w.env.db_fault w.steps then (err internal, tick w) else commit (f w.db) (tick w)

-- A statement that violates no constraint.
unfoldable pub update : (Db → Db) → M (Unit {0})
update f w =
    if w.env.db_fault w.steps
    then (err internal, tick w)
    else (ok tt, record (tick w) { db = f w.db })

-- `nextval` of a sequence, or an UPDATE … RETURNING.
unfoldable pub execute_returning : {A : Type 0} → (Db → A × Db) → M A
execute_returning f w =
    if w.env.db_fault w.steps
    then (err internal, tick w)
    else (ok (f w.db).0, record (tick w) { db = (f w.db).1 })

-- The time at the next interaction: a sleep lasts at least as long as it was asked to.
abbrev pub clock : World → DateTime
clock w = w.env.time w.steps + w.slept

-- `Utc::now()` and `Instant::now()`.
unfoldable pub utc_now : M DateTime
utc_now w = (ok (clock w), tick w)

unfoldable pub sleep : ℕ → M (Unit {0})
sleep ms w = (ok tt, record (tick w) { slept = w.slept + ms })

unfoldable pub new_v4 : M Uuid
new_v4 w = (ok (w.env.uuid w.steps), tick w)

abbrev pub sent : Effect → World → World
sent e w = record (tick w) { trace = e ∷ w.trace }

abbrev answer : {A : Type 0} → A → Option ApiError → Result A
answer a none = ok a
answer a (some e) = err e

-- A call of Proxmox or of SSH, with the answer that the environment gives if it succeeds.
unfoldable pub call : {A : Type 0} → Effect → (Env → ℕ → A) → M A
call e f w = (answer (f w.env w.steps) (w.env.proxmox_fault w.steps), sent e w)
