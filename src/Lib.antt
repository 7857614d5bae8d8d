-- ===== src/Lib.antt =====
-- A model of the control plane of hzelmaim (backend/): users manage containers, private networks
-- and webhooks on a Proxmox node through an HTTP API, which also is an OAuth provider.
--
-- Parts, and how they interact. A request is authenticated and handled by a service or a handler,
-- which asks repositories for rows of PostgreSQL, calls Proxmox and SSH, and writes the audit
-- log. `World` holds what a handler runs against: the tables (`Db`), the calls made (`trace`), the
-- time slept, and an environment that decides for each interaction whether it fails and what is
-- answered. A handler is a function `M A`, a state monad with the errors of the API; `.await?` is
-- `>>=`.
--
--   Prelude/     Boolean tests, lists as tables, bitwise AND, texts (`str::trim`, `str::len`) and
--                bytes (`split`, hexadecimal printing,
--                `from_utf8_lossy`)
--   Api          backend/src/utils/error.rs: `ApiError`, the result type; Api/Headers: the headers
--                of a request, a function from names
--   Models/      backend/src/models and the types of backend/src/auth/context.rs and
--                backend/src/proxmox/types.rs; Models/IpNet is the interface of the ipnet crate
--   World        the state and the monad; World/After and World/Keeps have one rule for each way
--                to build a handler, for what holds afterwards and for what is kept
--   Db/          the repositories of backend/src/db (network_repo.rs, container_repo.rs,
--                audit_repo.rs, webhook_repo.rs, pg_auth_store.rs, api_token_repo.rs,
--                user_repo.rs; oauth_repo.rs in OauthAppRepo, OauthCodeRepo and OauthTokenRepo): a
--                function for each method, a query over the rows; a violated constraint is an
--                error
--   Auth/        backend/src/auth: cookies and sessions (session.rs), CSRF tokens (csrf.rs), JSON
--                web tokens (jwt.rs), and the resolver that finds the actor of a request
--                (resolver.rs)
--   Handlers/    backend/src/api/handlers/auth.rs (Auth) and oauth.rs (Oauth, the OAuth provider)
--   Webhooks/    backend/src/webhooks: the signature, the providers and their events
--   Services/ContainerService   backend/src/services/container_service.rs
--   Services/NetworkService     backend/src/services/network_service.rs; its helpers without I/O
--                (`validate_cidr`, `check_no_overlap`, `allocate_ip`) are in Services/Addressing
--   Services/AuditService       backend/src/services/audit_service.rs
--   Services/WebhookService     backend/src/services/webhook_service.rs
--   Services/TerminalService    `exec_command` of backend/src/services/terminal_service.rs
--   Jobs/StateSync              backend/src/jobs/state_sync.rs, one pass
--   Examples/    the theorems at sample values, and runs
--
-- Bounds. `poll` runs on fuel: 61 rounds, since each round but the last sleeps two seconds of the
-- 120 that the loop is given. An i32 mask is its bit pattern, and the casts of the limits of a
-- container to i16 and i32 are written out. A UUID, a point in time in milliseconds and an IPv4
-- address are numbers, and a byte is a number. Texts that the code looks into (names of branches,
-- directories, headers, tokens) are lists of bytes.
--
-- Parameters. The ipnet crate is the record `IpNet` with the hypotheses `Laws`; the hmac crate is
-- `HmacSha256`, the jsonwebtoken crate `JsonWebToken` with its `Laws`; serde_json, SHA-256,
-- `urlencoding::encode`, the parsing and printing of UUIDs and random bytes are arguments of the
-- functions that use them. The database faults, the clock, the UUIDs, the answers of Proxmox
-- and the messages of an SSH channel are the record `Env`.
--
-- Tasks. The deployment that an inbound event spawns is a value, and running it is a step of its
-- own, at any later time. The task that stores when a personal access token was last used is run at
-- once. The list of the messages of an SSH channel is finite: a command that never ends, on which
-- `exec_command` does not answer, is left out.
--
-- Not modelled. Requests run one after another: what another request does between two awaits of a
-- handler is left out, so the UNIQUE constraints and not the checks before them are what would
-- hold under races. The texts of messages and of most SSH command lines, logging by `tracing`,
-- `metrics`, the other HTTP handlers and the routes, the OpenID Connect client, programs,
-- commands, interactive terminals and SSH certificates, the HTTP client of Proxmox, and the
-- dashboard.
pub mod Prelude
pub mod Api
pub mod Models
pub mod World
pub mod Db
pub mod Auth
pub mod Webhooks
pub mod Services
pub mod Handlers
pub mod Jobs
pub mod Examples
