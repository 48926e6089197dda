-- ===== src/Common/Filter.antt =====
-- libs/common/src/api/common-error-mapping.ts and base-exception.filter.ts: how an exception becomes
-- a response. The name of an HTTP status is Nest's `HttpStatus` enumeration, an argument here.
use coupon_nestjs.Prelude.{ℕ, String, Option, none, some}
use coupon_nestjs.Common.Errors.{
  invalid_argument, missing_header, type_mismatch, validation_failed, malformed_body, one, many,
  HttpBody, text, object, HttpException, Exception, common, http,
}
use coupon_nestjs.Common.Text.{join_comma}
use coupon_nestjs.Common.Http.{
  ErrorResponse, Reply, failure, error_of, error_with_fields, ErrorCode, code_text,
  validation_failed_message, malformed_body_message, missing_header_message, type_mismatch_message,
  internal_error_message,
}

pub record MappedError : Type 0 where
  pub status : ℕ
  pub error : ErrorResponse

abbrev pub mapped : ℕ → ErrorCode → String → MappedError
mapped status code message = record { status = status; error = error_of (code_text code) message }

-- The mappings that all three servers have.
unfoldable pub map_common_error : Exception → Option MappedError
map_common_error (common (validation_failed errors)) = some (record {
  status = 400;
  error =
      error_with_fields (code_text ErrorCode.validation_failed) validation_failed_message errors;
})
map_common_error (common malformed_body) =
    some (mapped 400 ErrorCode.malformed_body malformed_body_message)
map_common_error (common (type_mismatch name)) =
    some (mapped 400 ErrorCode.type_mismatch (type_mismatch_message name))
map_common_error (common (invalid_argument message)) =
    some (mapped 400 ErrorCode.invalid_argument message)
map_common_error _ = none

-- The mapping that server-a and server-c add, and server-b does not.
unfoldable pub map_missing_header : Exception → Option MappedError
map_missing_header (common (missing_header name)) =
    some (mapped 400 ErrorCode.missing_header (missing_header_message name))
map_missing_header _ = none

-- `Array.isArray(m) ? m.join(', ') : m ?? exception.message`
abbrev http_message : HttpBody → String → String
http_message (text t) fallback = t
http_message (object none) fallback = fallback
http_message (object (some (one m))) fallback = m
http_message (object (some (many ms))) fallback = join_comma ms

abbrev pub or_else {ℓ} : {A : Type ℓ} → Option A → A → A
or_else none d = d
or_else (some a) d = a

-- `first ?? second`
abbrev pub or_option {ℓ} : {A : Type ℓ} → Option A → Option A → Option A
or_option none o = o
or_option (some a) o = some a

unfoldable pub internal_error : MappedError
internal_error = mapped 500 ErrorCode.internal_error internal_error_message

module _ (status_name : ℕ → Option String) where
  unfoldable pub http_status_code : ℕ → String
  http_status_code status = or_else (status_name status) (code_text ErrorCode.internal_error)

  unfoldable pub map_http_exception : HttpException → MappedError
  unfolding http_status_code join_comma
  map_http_exception e = record {
    status = e.status;
    error = error_of (http_status_code e.status) (http_message e.response e.message);
  }

  -- What a filter falls back on once its own mapping has nothing to say.
  abbrev fallback : Exception → MappedError
  fallback (http e) = map_http_exception e
  fallback _ = internal_error

  -- `BaseExceptionFilter.catch`, over the mapping that a server defines.
  unfoldable pub catch_exception :
      (map_domain : Exception → Option MappedError) → {T : Type 0} → Exception → Reply T
  unfolding map_http_exception internal_error
  catch_exception map_domain e =
      let answer = or_else (map_domain e) (fallback e) in
      record { status = answer.status; retry_after = none; body = failure answer.error }
