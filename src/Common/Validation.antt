-- ===== src/Common/Validation.antt =====
-- libs/common/src/api/validation.ts: how the errors of class-validator become the field errors of the
-- response. Which errors there are is class-validator's.
pub mod Reported
use mathlib.Core.List.{Memᴰ}
use Prim.Native.String.{[], ◌∷◌}
use coupon_nestjs.Prelude.{◌≡◌, ◌↔◌, ◌⊎◌, String, Option, none, some, List, ◌++◌, map}
use coupon_nestjs.Common.Text.{◌<+>◌}
use coupon_nestjs.Common.Errors.{FieldError, Exception, common, validation_failed}

-- The messages of the violated constraints of a property, if any, and the errors in the object that it
-- holds. An error without children has an empty list of them.
mutual
  pub data ValidationError : Type 0 where
    error :
        (property : String)
        → (constraints : Option (List String)) → (children : Errors) → ValidationError

  pub data Errors : Type 0 where
    nil : Errors
    cons : ValidationError → Errors → Errors

-- `parentPath ? `${parentPath}.${property}` : property`
abbrev pub path_of : String → String → String
path_of [] property = property
path_of (c ∷ s) property = (c ∷ s) <+> "." <+> property

abbrev pub field_errors_of : String → Option (List String) → List FieldError
field_errors_of path none = List.[]
field_errors_of path (some messages) =
    map (λ message. record { field = path; message = message }) messages

-- `flattenValidationErrors`, and the body of its loop.
unfoldable mutual
  pub flatten_validation_errors : String → Errors → List FieldError
  flatten_validation_errors parent nil = List.[]
  flatten_validation_errors parent (cons e errors) =
      flatten_error parent e ++ flatten_validation_errors parent errors

  pub flatten_error : String → ValidationError → List FieldError
  flatten_error parent (error property constraints children) =
      field_errors_of (path_of parent property) constraints
      ++ flatten_validation_errors (path_of parent property) children

-- The `exceptionFactory` of the pipe.
abbrev pub exception_of : Errors → Exception
exception_of errors = common (validation_failed (flatten_validation_errors "" errors))

-- A constraint is violated somewhere below a path.
mutual
  pub data Violates : String → Errors → FieldError → Type 0 where
    first :
        {parent : String} {e : ValidationError} {errors : Errors} {f : FieldError}
        → ViolatesIn parent e f
        → Violates parent (cons e errors) f
    later :
        {parent : String} {e : ValidationError} {errors : Errors} {f : FieldError}
        → Violates parent errors f
        → Violates parent (cons e errors) f

  pub data ViolatesIn : String → ValidationError → FieldError → Type 0 where
    here :
        {parent property : String} {messages : List String} {children : Errors} {message : String}
        → Memᴰ message messages
        → ViolatesIn parent
            (error property (some messages) children)
            (record { field = path_of parent property; message = message })
    below :
        {parent property : String} {constraints : Option (List String)} {children : Errors}
        {f : FieldError}
        → Violates (path_of parent property) children f
        → ViolatesIn parent (error property constraints children) f
