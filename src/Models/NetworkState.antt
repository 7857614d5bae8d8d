-- ===== src/Models/NetworkState.antt =====
-- The lifecycle state of a private network and its text form (backend/src/models/network.rs).
use hzelmaim.Prelude.{
  String, subst, ◌↔◌, ◌≡◌, refl, Option, none, some, arith, str_eq, eq_iff, if◌then◌else◌,
}

pub data NetworkState : Type 0 where
  creating active deleting failed : NetworkState

unfoldable pub as_str : NetworkState → String
as_str creating = "creating"
as_str active = "active"
as_str deleting = "deleting"
as_str failed = "failed"

unfoldable pub from_str : String → Option NetworkState
from_str s =
    if str_eq s "creating"
    then some creating
    else if str_eq s "active"
    then some active
    else if str_eq s "deleting"
    then some deleting
    else if str_eq s "failed"
    then some failed
    else none

from_str-as_str : (s : NetworkState) → from_str (as_str s) ≡ some s
unfolding from_str as_str
from_str-as_str creating = refl
from_str-as_str active = refl
from_str-as_str deleting = refl
from_str-as_str failed = refl

as_str-from_str : (s : String) (t : NetworkState) → from_str s ≡ some t → as_str t ≡ s
unfolding from_str as_str
as_str-from_str s t h =
    ground (arith, eq_iff s "creating", eq_iff s "active", eq_iff s "deleting", eq_iff s "failed")

-- `from_str` reads a text as a state exactly when it is the text that `as_str` gives the state.
pub network_state_iff : (s : String) (t : NetworkState) → (from_str s ≡ some t) ↔ (as_str t ≡ s)
network_state_iff s t =
    (as_str-from_str s t, λ e. subst (λ (u : String). from_str u ≡ some t) e (from_str-as_str t))
