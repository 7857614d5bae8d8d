-- ===== src/Models.antt =====
-- The data that the services share (backend/src/models).
pub mod User
pub mod Container
pub mod NetworkState
pub mod MembershipState
pub mod Network
pub mod Proxmox
pub mod IpNet
pub mod Audit
pub mod Session
pub mod Ssh
pub mod DeliveryStatus
pub mod StateNames
pub mod Webhook
pub mod Oauth
