-- ===== src/Models/MembershipState.antt =====
-- The lifecycle state of a container's membership and its text form (backend/src/models/network.rs).
use hzelmaim.Prelude.{
  String, subst, ◌↔◌, ◌≡◌, refl, Option, none, some, arith, str_eq, eq_iff, if◌then◌else◌,
}

pub data MembershipState : Type 0 where
  attaching active detaching failed : MembershipState

unfoldable pub as_str : MembershipState → String
as_str attaching = "attaching"
as_str active = "active"
as_str detaching = "detaching"
as_str failed = "failed"

unfoldable pub from_str : String → Option MembershipState
from_str s =
    if str_eq s "attaching"
    then some attaching
    else if str_eq s "active"
    then some active
    else if str_eq s "detaching"
    then some detaching
    else if str_eq s "failed"
    then some failed
    else none

from_str-as_str : (s : MembershipState) → from_str (as_str s) ≡ some s
unfolding from_str as_str
from_str-as_str attaching = refl
from_str-as_str active = refl
from_str-as_str detaching = refl
from_str-as_str failed = refl

as_str-from_str : (s : String) (t : MembershipState) → from_str s ≡ some t → as_str t ≡ s
unfolding from_str as_str
as_str-from_str s t h =
    ground (arith, eq_iff s "attaching", eq_iff s "active", eq_iff s "detaching", eq_iff s "failed")

-- `from_str` reads a text as a state exactly when it is the text that `as_str` gives the state.
pub membership_state_iff :
    (s : String) (t : MembershipState) → (from_str s ≡ some t) ↔ (as_str t ≡ s)
membership_state_iff s t =
    (as_str-from_str s t, λ e. subst (λ (u : String). from_str u ≡ some t) e (from_str-as_str t))
