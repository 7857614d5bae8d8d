-- ===== src/Api.antt =====
-- Errors of the API (backend/src/utils/error.rs). An error is its status and its code; the text
-- of its message is not modelled.
mod Code
pub mod Headers
pub use Code.{ApiErrorCode}
use hzelmaim.Prelude.{ℕ, ◌≡◌, refl, ap, Option, none, some}

pub record ApiError : Type 0 where
  pub status : ℕ
  pub code : ApiErrorCode

pub data Result {ℓ} (A : Type ℓ) : Type ℓ where
  ok : A → Result A
  err : ApiError → Result A

-- `ok_or_else`.
abbrev pub ok_or {ℓ} : {A : Type ℓ} → Option A → ApiError → Result A
ok_or none e = err e
ok_or (some a) e = ok a

abbrev pub unauthorized : ApiError
unauthorized = record { status = 401; code = ApiErrorCode.unauthorized }

abbrev pub forbidden : ApiError
forbidden = record { status = 403; code = ApiErrorCode.forbidden }

abbrev pub csrf_rejected : ApiError
csrf_rejected = record { status = 403; code = ApiErrorCode.csrf_rejected }

abbrev pub validation : ApiError
validation = record { status = 400; code = ApiErrorCode.validation_failed }

abbrev pub not_found : ApiError
not_found = record { status = 404; code = ApiErrorCode.not_found }

abbrev pub bad_request : ApiError
bad_request = record { status = 400; code = ApiErrorCode.bad_request }

abbrev pub container_not_found : ApiError
container_not_found = record { status = 404; code = ApiErrorCode.container_not_found }

abbrev pub network_not_found : ApiError
network_not_found = record { status = 404; code = ApiErrorCode.network_not_found }

abbrev pub network_member_not_found : ApiError
network_member_not_found = record { status = 404; code = ApiErrorCode.network_member_not_found }

abbrev pub internal : ApiError
internal = record { status = 500; code = ApiErrorCode.internal_error }

abbrev pub webhook_not_found : ApiError
webhook_not_found = record { status = 404; code = ApiErrorCode.webhook_not_found }

abbrev pub webhook_signature_invalid : ApiError
webhook_signature_invalid = record { status = 401; code = ApiErrorCode.webhook_signature_invalid }

abbrev ok_value : {A : Type 0} → A → Result A → A
ok_value a (ok b) = b
ok_value a (err e) = a

pub ok_injective : {A : Type 0} (a b : A) → ok a ≡ ok b → a ≡ b
ok_injective a b h = ap (ok_value a) h

pub ok_or-none : {A : Type 0} (o : Option A) (e x : ApiError) → ok_or o e ≡ err x → o ≡ none
ok_or-none none e x h = refl
ok_or-none (some a) e x h = absurd (cc)

pub ok_or-some : {A : Type 0} (o : Option A) (e : ApiError) (a : A) → ok_or o e ≡ ok a → o ≡ some a
ok_or-some none e a h = absurd (cc)
ok_or-some (some b) e a h = ap (λ c. some c) (ok_injective b a h)
