-- ===== src/Models/StateNames.antt =====
-- The texts that stand for states in columns of the database.
use hzelmaim.Prelude.{◌≡◌, ◌↔◌, some, String}
use hzelmaim.Models.NetworkState
use hzelmaim.Models.NetworkState.{NetworkState}
use hzelmaim.Models.MembershipState
use hzelmaim.Models.MembershipState.{MembershipState}
use hzelmaim.Models.DeliveryStatus
use hzelmaim.Models.DeliveryStatus.{DeliveryStatus}

-- For the states of networks, of memberships and of deliveries, `from_str` reads a text as a
-- state exactly when it is the text that `as_str` gives the state.
pub state_names_iff :
    ((s : String) (t : NetworkState)
      → (NetworkState.from_str s ≡ some t) ↔ (NetworkState.as_str t ≡ s))
    × ((s : String) (t : MembershipState)
        → (MembershipState.from_str s ≡ some t) ↔ (MembershipState.as_str t ≡ s))
    × ((s : String) (t : DeliveryStatus)
        → (DeliveryStatus.from_str s ≡ some t) ↔ (DeliveryStatus.as_str t ≡ s))
state_names_iff = (
  NetworkState.network_state_iff, MembershipState.membership_state_iff,
  DeliveryStatus.delivery_status_iff,
)
