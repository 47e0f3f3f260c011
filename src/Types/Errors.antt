-- ===== src/Types/Errors.antt =====
-- errors.go: the sentinel errors, the tests that `errors.Is` makes, and results.
use credbound.Prelude.{ℕ, Bool, true, false, String}

-- `validation` is a `ValidationError` with its field and rule. `canceled` is an error that
-- `ctx.Err()` reports, and `other` any error that is none of the sentinels.
pub data Error : Type 0 where
  invalid_credentials unauthorized forbidden step_up_required conflict not_found : Error
  invalid_input expired locked sso_required domain_verification no_passkey : Error
  passkey_clone_detected audit_unavailable audit_compromised : Error
  transaction_rejected not_supported : Error
  validation : String → String → Error
  canceled other : ℕ → Error

-- `errors.Is(err, ErrInvalidInput)`: a `ValidationError` unwraps to it.
unfoldable pub is_invalid_input : Error → Bool
is_invalid_input Error.invalid_input = true
is_invalid_input (Error.validation field rule) = true
is_invalid_input _ = false

abbrev pub is_not_found : Error → Bool
is_not_found Error.not_found = true
is_not_found _ = false

abbrev pub is_conflict : Error → Bool
is_conflict Error.conflict = true
is_conflict _ = false

abbrev pub is_audit_unavailable : Error → Bool
is_audit_unavailable Error.audit_unavailable = true
is_audit_unavailable _ = false

abbrev pub is_step_up_required : Error → Bool
is_step_up_required Error.step_up_required = true
is_step_up_required _ = false

abbrev pub is_invalid_credentials : Error → Bool
is_invalid_credentials Error.invalid_credentials = true
is_invalid_credentials _ = false

pub data Result {ℓ} (A : Type ℓ) : Type ℓ where
  ok : A → Result A
  err : Error → Result A

-- `HTTPStatus` of a non-nil error.
unfoldable pub http_status : Error → ℕ
http_status Error.invalid_credentials = 401
http_status Error.unauthorized = 401
http_status Error.expired = 401
http_status Error.passkey_clone_detected = 401
http_status Error.no_passkey = 401
http_status Error.forbidden = 403
http_status Error.step_up_required = 403
http_status Error.sso_required = 403
http_status Error.not_found = 404
http_status Error.conflict = 409
http_status Error.invalid_input = 400
http_status (Error.validation field rule) = 400
http_status Error.domain_verification = 422
http_status Error.transaction_rejected = 422
http_status Error.locked = 429
http_status Error.not_supported = 501
http_status Error.audit_unavailable = 503
http_status _ = 500

-- `mapTransactionError` of a non-nil error: what a hook may report as it is, and the rest rejected.
unfoldable pub map_transaction_error : Error → Error
map_transaction_error Error.invalid_credentials = Error.invalid_credentials
map_transaction_error Error.unauthorized = Error.unauthorized
map_transaction_error Error.forbidden = Error.forbidden
map_transaction_error Error.step_up_required = Error.step_up_required
map_transaction_error Error.conflict = Error.conflict
map_transaction_error Error.not_found = Error.not_found
map_transaction_error Error.invalid_input = Error.invalid_input
map_transaction_error (Error.validation field rule) = Error.validation field rule
map_transaction_error Error.expired = Error.expired
map_transaction_error Error.audit_unavailable = Error.audit_unavailable
map_transaction_error (Error.canceled e) = Error.canceled e
map_transaction_error _ = Error.transaction_rejected
