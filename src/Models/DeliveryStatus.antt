-- ===== src/Models/DeliveryStatus.antt =====
-- The status of a delivery and its text form (backend/src/models/webhook.rs).
use hzelmaim.Prelude.{
  String, subst, ◌↔◌, ◌≡◌, refl, Option, none, some, arith, str_eq, eq_iff, if◌then◌else◌,
}

pub data DeliveryStatus : Type 0 where
  pending running succeeded failed skipped : DeliveryStatus

unfoldable pub as_str : DeliveryStatus → String
as_str pending = "pending"
as_str running = "running"
as_str succeeded = "succeeded"
as_str failed = "failed"
as_str skipped = "skipped"

unfoldable pub from_str : String → Option DeliveryStatus
from_str s =
    if str_eq s "pending"
    then some pending
    else if str_eq s "running"
    then some running
    else if str_eq s "succeeded"
    then some succeeded
    else if str_eq s "failed"
    then some failed
    else if str_eq s "skipped"
    then some skipped
    else none

pub from_str-as_str : (s : DeliveryStatus) → from_str (as_str s) ≡ some s
unfolding from_str as_str
from_str-as_str pending = refl
from_str-as_str running = refl
from_str-as_str succeeded = refl
from_str-as_str failed = refl
from_str-as_str skipped = refl

as_str-from_str : (s : String) (t : DeliveryStatus) → from_str s ≡ some t → as_str t ≡ s
unfolding from_str as_str
as_str-from_str s t h = ground (
  arith,
  eq_iff s "pending",
  eq_iff s "running",
  eq_iff s "succeeded",
  eq_iff s "failed",
  eq_iff s "skipped",
)

-- `from_str` reads a text as a status exactly when it is the text that `as_str` gives the status.
pub delivery_status_iff : (s : String) (t : DeliveryStatus) → (from_str s ≡ some t) ↔ (as_str t ≡ s)
delivery_status_iff s t =
    (as_str-from_str s t, λ e. subst (λ (u : String). from_str u ≡ some t) e (from_str-as_str t))
