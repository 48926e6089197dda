-- ===== src/Common/Validation/Reported.antt =====
-- The field errors are the violated constraints, with their paths.
use mathlib.Core.List.{Memᴰ}
use mathlib.Core.List.Memᴰ
use coupon_nestjs.Prelude.{sym, inl, inr, String, Option, none, some, List}
use coupon_nestjs.Common.Errors.{FieldError}
use coupon_nestjs.Common.Validation.{
  ValidationError, Errors, error, nil, cons, path_of, field_errors_of, flatten_validation_errors,
  flatten_error, Violates, ViolatesIn, first, later, here, below,
}

ViolatesIn-field_errors_of :
    (parent property : String) (constraints : Option (List String)) (children : Errors)
    (f : FieldError)
    → Memᴰ f (field_errors_of (path_of parent property) constraints)
    → ViolatesIn parent (error property constraints children) f
ViolatesIn-field_errors_of parent property none children f m = elim m [ ]
ViolatesIn-field_errors_of parent property (some messages) children f m =
    let r =
      Memᴰ.of_map (λ message. record { field = path_of parent property; message = message })
        messages m in
    rw (sym r.2) (here r.1)

mutual
  unfolding flatten_validation_errors

  Mem-Violates :
      (parent : String) (errors : Errors) (f : FieldError)
      → Violates parent errors f
      → Memᴰ f (flatten_validation_errors parent errors)
  Mem-Violates parent nil f v = elim v [ ]
  Mem-Violates parent (cons e errors) f (first v) =
      Memᴰ.append_left (flatten_validation_errors parent errors) (Mem-ViolatesIn parent e f v)
  Mem-Violates parent (cons e errors) f (later v) =
      Memᴰ.append_right (flatten_error parent e) (Mem-Violates parent errors f v)

  Mem-ViolatesIn :
      (parent : String) (e : ValidationError) (f : FieldError)
      → ViolatesIn parent e f
      → Memᴰ f (flatten_error parent e)
  Mem-ViolatesIn parent (error property (some messages) children) _ (here m) =
      Memᴰ.append_left (flatten_validation_errors (path_of parent property) children)
        (Memᴰ.map (λ message. record { field = path_of parent property; message = message }) m)
  Mem-ViolatesIn parent (error property constraints children) f (below v) =
      Memᴰ.append_right (field_errors_of (path_of parent property) constraints)
        (Mem-Violates (path_of parent property) children f v)

mutual
  unfolding flatten_validation_errors

  Violates-Mem :
      (parent : String) (errors : Errors) (f : FieldError)
      → Memᴰ f (flatten_validation_errors parent errors)
      → Violates parent errors f
  Violates-Mem parent nil f m = elim m [ ]
  Violates-Mem parent (cons e errors) f m = elim (Memᴰ.append_cases (flatten_error parent e) m) [
    | inl m' ↦ first (ViolatesIn-Mem parent e f m')
    | inr m' ↦ later (Violates-Mem parent errors f m')
  ]

  ViolatesIn-Mem :
      (parent : String) (e : ValidationError) (f : FieldError)
      → Memᴰ f (flatten_error parent e)
      → ViolatesIn parent e f
  ViolatesIn-Mem parent (error property constraints children) f m =
      elim (Memᴰ.append_cases (field_errors_of (path_of parent property) constraints) m) [
        | inl m' ↦ ViolatesIn-field_errors_of parent property constraints children f m'
        | inr m' ↦ below (Violates-Mem (path_of parent property) children f m')
      ]
