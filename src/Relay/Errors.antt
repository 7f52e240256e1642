-- ===== src/Relay/Errors.antt =====
-- packages/shared/src/relay-errors.ts: error codes, grant states, and the status of a code.
use octg.Common.{ℕ, String}

pub data RelayErrorCode : Type 0 where
  invalid_request invalid_context unauthorized_service environment_mismatch : RelayErrorCode
  client_disabled model_requires_paid model_not_allowed request_too_large : RelayErrorCode
  insufficient_quota worker_concurrency_exceeded duplicate_idempotency_key : RelayErrorCode
  grant_not_found grant_expired grant_replayed grant_terminalized lease_lost : RelayErrorCode
  upstream_error upstream_timeout upstream_invalid_response internal_error : RelayErrorCode

pub data RelayGrantState : Type 0 where
  authorized attempted settled released uncertain : RelayGrantState
  reconciled_consumed reconciled_unused : RelayGrantState

abbrev pub code_text : RelayErrorCode → String
code_text invalid_request = "invalid_request"
code_text invalid_context = "invalid_context"
code_text unauthorized_service = "unauthorized_service"
code_text environment_mismatch = "environment_mismatch"
code_text client_disabled = "client_disabled"
code_text model_requires_paid = "model_requires_paid"
code_text model_not_allowed = "model_not_allowed"
code_text request_too_large = "request_too_large"
code_text insufficient_quota = "insufficient_quota"
code_text worker_concurrency_exceeded = "worker_concurrency_exceeded"
code_text duplicate_idempotency_key = "duplicate_idempotency_key"
code_text grant_not_found = "grant_not_found"
code_text grant_expired = "grant_expired"
code_text grant_replayed = "grant_replayed"
code_text grant_terminalized = "grant_terminalized"
code_text lease_lost = "lease_lost"
code_text upstream_error = "upstream_error"
code_text upstream_timeout = "upstream_timeout"
code_text upstream_invalid_response = "upstream_invalid_response"
code_text internal_error = "internal_error"

unfoldable pub relay_error_code_status : RelayErrorCode → ℕ
relay_error_code_status invalid_request = 400
relay_error_code_status client_disabled = 403
relay_error_code_status model_requires_paid = 403
relay_error_code_status model_not_allowed = 403
relay_error_code_status duplicate_idempotency_key = 409
relay_error_code_status request_too_large = 413
relay_error_code_status insufficient_quota = 429
relay_error_code_status worker_concurrency_exceeded = 429
relay_error_code_status _ = 500
