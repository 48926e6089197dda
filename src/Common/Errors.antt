-- ===== src/Common/Errors.antt =====
-- libs/common/src/api/errors.ts, and apps/server-c/src/domain/exception: what a method may throw.
use coupon_nestjs.Prelude.{ℕ, String, Option, List}

-- `{ field, message }`
pub record FieldError : Type 0 where
  pub field : String
  pub message : String

-- The framework-free errors of errors.ts, one constructor for each class.
pub data CommonError : Type 0 where
  invalid_argument : (message : String) → CommonError
  invalid_state : (message : String) → CommonError
  missing_header : (header_name : String) → CommonError
  type_mismatch : (argument_name : String) → CommonError
  validation_failed : (field_errors : List FieldError) → CommonError
  malformed_body : CommonError

-- The domain errors of server-c, one constructor for each class, with the message.
pub data DomainError : Type 0 where
  coupon_not_found : String → DomainError
  event_not_found : String → DomainError
  optimistic_lock_failure : String → DomainError
  duplicate_user_coupon : String → DomainError

-- What `HttpException.getResponse()` gives: a text, or an object whose `message` may be missing.
pub data HttpMessage : Type 0 where
  one : String → HttpMessage
  many : List String → HttpMessage

pub data HttpBody : Type 0 where
  text : String → HttpBody
  object : Option HttpMessage → HttpBody

-- Nest's own exception, thrown by the framework.
pub record HttpException : Type 0 where
  pub status : ℕ
  pub response : HttpBody
  pub message : String

-- TypeORM's `QueryFailedError`, as far as the program reads it: the driver's `errno`, and the name of
-- the key in the driver's message.
pub record QueryFailedError : Type 0 where
  pub errno : Option ℕ
  pub key : Option String

-- Anything that can be thrown. `plain` is an `Error` that the program throws itself, of no class of its
-- own; `driver` is one of a driver or a library, such as a refused connection.
pub data Exception : Type 0 where
  common : CommonError → Exception
  domain : DomainError → Exception
  http : HttpException → Exception
  query_failed : QueryFailedError → Exception
  plain : String → Exception
  driver : String → Exception
