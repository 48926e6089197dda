-- ===== src/Common/Http.antt =====
-- libs/common/src/api/api-response.ts: the response envelope and the error codes.
use coupon_nestjs.Prelude.{ℕ, String, Bool, true, false, Option, none, some, List}
use coupon_nestjs.Common.Errors.{FieldError}
use coupon_nestjs.Common.Text.{◌<+>◌}

pub record ErrorResponse : Type 0 where
  pub code : String
  pub message : String
  pub field_errors : Option (List FieldError)

pub record ApiResponse (T : Type 0) : Type 0 where
  pub success : Bool
  pub payload : Option T
  pub error : Option ErrorResponse

-- The status line and the body that a request is answered with.
pub record Reply (T : Type 0) : Type 0 where
  pub status : ℕ
  pub retry_after : Option String
  pub body : ApiResponse T

module _ {T : Type 0} where
  abbrev pub success : T → ApiResponse T
  success a = record { success = true; payload = some a; error = none }

  abbrev pub failure : ErrorResponse → ApiResponse T
  failure e = record { success = false; payload = none; error = some e }

abbrev pub error_of : String → String → ErrorResponse
error_of code message = record { code = code; message = message; field_errors = none }

abbrev pub error_with_fields : String → String → List FieldError → ErrorResponse
error_with_fields code message errors = record {
  code = code;
  message = message;
  field_errors = some errors;
}

pub data ErrorCode : Type 0 where
  validation_failed missing_header malformed_body type_mismatch invalid_argument : ErrorCode
  not_found event_not_found invalid_state internal_state race_retry internal_error : ErrorCode

-- `ERROR_CODE`: the text that stands in the envelope.
abbrev pub code_text : ErrorCode → String
code_text validation_failed = "VALIDATION_FAILED"
code_text missing_header = "MISSING_HEADER"
code_text malformed_body = "MALFORMED_BODY"
code_text type_mismatch = "TYPE_MISMATCH"
code_text invalid_argument = "INVALID_ARGUMENT"
code_text not_found = "NOT_FOUND"
code_text event_not_found = "EVENT_NOT_FOUND"
code_text invalid_state = "INVALID_STATE"
code_text internal_state = "INTERNAL_STATE"
code_text race_retry = "RACE_RETRY"
code_text internal_error = "INTERNAL_ERROR"

-- `ERROR_MESSAGE`
abbrev pub validation_failed_message : String
validation_failed_message = "request body validation failed"

abbrev pub malformed_body_message : String
malformed_body_message = "request body is malformed"

abbrev pub not_found_message : String
not_found_message = "coupon not found"

abbrev pub event_not_found_message : String
event_not_found_message = "event not found"

abbrev pub race_retry_message : String
race_retry_message = "concurrent modification — retry the request"

abbrev pub internal_error_message : String
internal_error_message = "internal server error"

abbrev pub missing_header_message : String → String
missing_header_message name = "required header missing: " <+> name

abbrev pub type_mismatch_message : String → String
type_mismatch_message name = "argument type mismatch: " <+> name
