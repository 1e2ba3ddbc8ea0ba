-- ===== src/Http.antt =====
-- What the handlers share: entity tags (etag.go of internal/administration and internal/template) and
-- query parameters (internal/httpx/pagination.go).
pub mod Number
pub mod ETag
pub mod Query
use go_invoicing.Base.{ℕ}

-- The codes of the error envelope: the constants of internal/httpx/error.go, and the literals of the
-- handlers.
pub data ErrorCode : Type 0 where
  invalid_request validation_failed unauthorized forbidden not_found conflict : ErrorCode
  internal_error unsupported_media_type request_too_large method_not_allowed rate_limited :
      ErrorCode
  service_unavailable precondition_required idempotency_key_reused : ErrorCode
  invoice_not_found invoice_already_sent invoice_cancelled : ErrorCode

-- A request goes on with a value, or has been answered with an error.
pub data Reply {ℓ} (A : Type ℓ) : Type ℓ where
  accepted : A → Reply A
  refused : ErrorCode → Reply A
