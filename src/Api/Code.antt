-- ===== src/Api/Code.antt =====
-- The machine-readable codes of backend/src/utils/error.rs.
-- `ApiErrorCode`, in the order of the source.
pub data ApiErrorCode : Type 0 where
  unauthorized forbidden csrf_rejected validation_failed not_found bad_request : ApiErrorCode
  container_not_found command_not_found network_not_found network_member_not_found : ApiErrorCode
  not_implemented internal_error webhook_not_found webhook_delivery_not_found : ApiErrorCode
  webhook_signature_invalid : ApiErrorCode
