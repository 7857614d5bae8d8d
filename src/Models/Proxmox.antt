-- ===== src/Models/Proxmox.antt =====
-- Requests to Proxmox and its answers (backend/src/proxmox/types.rs).
use hzelmaim.Prelude.{◌≡◌, refl, ℕ, Bool, true, false, String}

pub record ResourceLimits : Type 0 where
  pub cpu_cores : ℕ
  pub memory_mb : ℕ
  pub disk_gb : ℕ

-- The list of SSH keys is always empty in the program, and is left out.
pub record CreateContainerRequest : Type 0 where
  pub node_name : String
  pub hostname : String
  pub template_ctid : ℕ
  pub resource_limits : ResourceLimits

pub data ContainerRuntimeStatus : Type 0 where
  running stopped unknown : ContainerRuntimeStatus

-- The derived `==` of `ContainerRuntimeStatus`.
abbrev pub status_eq : ContainerRuntimeStatus → ContainerRuntimeStatus → Bool
status_eq running running = true
status_eq stopped stopped = true
status_eq unknown unknown = true
status_eq _ _ = false

pub status_eq_sound : (s t : ContainerRuntimeStatus) → status_eq s t ≡ true → s ≡ t
status_eq_sound running running h = refl
status_eq_sound running stopped h = absurd (cc)
status_eq_sound running unknown h = absurd (cc)
status_eq_sound stopped running h = absurd (cc)
status_eq_sound stopped stopped h = refl
status_eq_sound stopped unknown h = absurd (cc)
status_eq_sound unknown running h = absurd (cc)
status_eq_sound unknown stopped h = absurd (cc)
status_eq_sound unknown unknown h = refl
